-- ===== src/TaskDocument/Gates.antt =====
-- `complete_next_gate`.
use playbook_harness.Base.{
  ℕ, ◌+◌, not, Option, none, some, List, [], ◌∷◌, ◌++◌, if◌then◌else◌, Result, ok, err, ◌>>=◌, leb,
  get_or, set, drop,
}
use playbook_harness.Text.{Text, codes, strip}
use playbook_harness.Text.Lines.{join}
use playbook_harness.Text.Edit.{replace_first}
use playbook_harness.Identity.{SessionKey}
use playbook_harness.TaskDocument.Grammar.{gate_match, is_required_field}
use playbook_harness.TaskDocument.Scan.{Mark}
use playbook_harness.TaskDocument.Document.{
  DocumentError, no_open_gate, TaskGate, TaskDocument, parse, gates, is_checked_mark,
}
use playbook_harness.TaskDocument.Claim.{Step, owned_by}

-- The gates that are not checked.
unfoldable pub open_gates : List TaskGate → List TaskGate
open_gates [] = []
open_gates (g ∷ gs) = let rest = open_gates gs in if g.checked then rest else g ∷ rest

abbrev pub first_gate : List TaskGate → Result DocumentError TaskGate
first_gate [] = err no_open_gate
first_gate (g ∷ gs) = ok g

-- The text of an open gate on a line.
abbrev open_gate_text : Text → Option Text
open_gate_text line = elim (gate_match line) [
  | none ↦ none
  | some g ↦ if is_checked_mark g.0 then none else some g.1
]

-- The lines behind the closed gate; `n` texts were found before. The limit of three is tested on
-- lines that are no open gate.
unfoldable pub upcoming_from : ℕ → List Text → List Mark → List Text
upcoming_from n (l ∷ ls) (m ∷ ms) =
    if not m.semantic then upcoming_from n ls ms else elim (open_gate_text l) [
      | some text ↦ text ∷ upcoming_from (n + 1) ls ms
      | none ↦
          let found = if is_required_field (strip l) then strip l ∷ [] else [] in
          let n' = if is_required_field (strip l) then n + 1 else n in
          let rest = upcoming_from n' ls ms in found ++ (if leb 3 n' then [] else rest)
    ]
upcoming_from n _ _ = []

-- `lines[line].replace("[ ]", "[x]", 1)`
abbrev pub close_box : Text → Text
close_box line = replace_first (codes "[ ]") (codes "[x]") line

abbrev pub close_line : TaskDocument → ℕ → List Text
close_line d i = set d.lines i (close_box (get_or d.lines i []))

abbrev pub close_gate :
    Text → TaskDocument → Result DocumentError TaskGate → Step (Text × List Text)
close_gate original d (err e) = (err e, original)
close_gate original d (ok current) =
    let upcoming =
      upcoming_from 0 (drop (current.line + 1) d.lines) (drop (current.line + 1) d.marks) in
    (ok (current.text, upcoming), join (close_line d current.line))

abbrev complete_gate_parsed :
    Text → Result DocumentError TaskDocument → SessionKey → Step (Text × List Text)
complete_gate_parsed original (err e) claimant = (err e, original)
complete_gate_parsed original (ok d) claimant =
    close_gate original d (do allowed ← owned_by d claimant; first_gate (open_gates (gates d)))

unfoldable pub complete_next_gate : Text → SessionKey → Step (Text × List Text)
complete_next_gate original claimant = complete_gate_parsed original (parse original) claimant
