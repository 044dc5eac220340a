-- ===== src/TaskDocument/Position.antt =====
-- `head_position`, `section_span` and `update_task_document`, and that a section's span is the one
-- that `parse` found.
use playbook_harness.Base.{
  ℕ, ◌+◌, ◌≡◌, refl, ◌∙◌, Option, none, some, List, [], ◌∷◌, ◌==◌, if◌then◌else◌, Result, ok, err,
  length, arith,
}
use playbook_harness.Text.{Text, codes, strip}
use playbook_harness.Text.Lines.{splitlines}
use playbook_harness.Identity.{SessionKey}
use playbook_harness.TaskDocument.Grammar.{heading_title, gate_match, is_required_field}
use playbook_harness.TaskDocument.Scan.{State, Mark, initial, scan, scan_line, headings}
use playbook_harness.TaskDocument.Document.{
  DocumentError, Section, TaskGate, TaskDocument, parse, gates, is_monitor_board, sections_named,
  one_section,
}
use playbook_harness.TaskDocument.Render.{render}
use playbook_harness.TaskDocument.Claim.{Step, finish}
use playbook_harness.TaskDocument.Gates.{open_gates}
use playbook_harness.TaskDocument.Assemble.{named, parse-Assembled}

-- The text of the head position: all gates are checked, a count on a monitor board, or a line.
pub data HeadPosition : Type 0 where
  all_checked : HeadPosition
  open_on_board : ℕ → HeadPosition
  at : Text → HeadPosition

abbrev head_on_line : Text → Option (ℕ × Text) → HeadPosition → HeadPosition
head_on_line line none rest = if is_required_field (strip line) then at (strip line) else rest
head_on_line line (some g) rest =
    if g.0 == b' ' then at g.1 else if is_required_field (strip line) then at (strip line) else rest

unfoldable pub first_position : List Text → List Mark → HeadPosition
first_position (l ∷ ls) (m ∷ ms) =
    let rest = first_position ls ms in
    if m.semantic then head_on_line l (gate_match l) rest else rest
first_position _ _ = all_checked

abbrev board_position : List TaskGate → HeadPosition
board_position [] = all_checked
board_position (g ∷ gs) = open_on_board (length (g ∷ gs))

unfoldable pub head_position : TaskDocument → HeadPosition
head_position d =
    if is_monitor_board d
    then board_position (open_gates (gates d))
    else first_position d.lines d.marks

-- The headings on the semantic lines, read again.
unfoldable pub headings_again : ℕ → List Text → List Mark → List (ℕ × Text)
headings_again i (l ∷ ls) (m ∷ ms) =
    let rest = headings_again (i + 1) ls ms in
    if m.semantic then elim (heading_title l) [ none ↦ rest | some t ↦ (i, t) ∷ rest ] else rest
headings_again i _ _ = []

unfoldable pub section_span : TaskDocument → Text → Result DocumentError (Option Section)
section_span d title =
    one_section title (sections_named title (length d.lines) (headings_again 0 d.lines d.marks))

abbrev update_parsed :
    Text → Result DocumentError TaskDocument → Option Text → Option SessionKey → Step TaskDocument
update_parsed original (err e) status session = (err e, original)
update_parsed original (ok d) status session = finish original (render d status session)

unfoldable pub update_task_document : Text → Option Text → Option SessionKey → Step TaskDocument
update_task_document original status session =
    update_parsed original (parse original) status session

-- A semantic line's title is recorded, and no other line has one.
abbrev Titled : Text → Mark → Type 0
Titled l m = m.heading ≡ (if m.semantic then heading_title l else none)

scan_line-Titled : (s : State) (l : Text) → Titled l (scan_line s l).1
unfolding scan_line
scan_line-Titled s l = ground arith

headings_again-step :
    (i : ℕ) (l : Text) (m : Mark) (ls : List Text) (ms : List Mark)
    → Titled l m
    → headings_again (i + 1) ls ms ≡ headings (i + 1) ms
    → headings_again i (l ∷ ls) (m ∷ ms) ≡ headings i (m ∷ ms)
unfolding headings_again headings
headings_again-step i l m ls ms t h = ground (arith, t, h)

headings_again-empty : (i : ℕ) → headings_again i [] [] ≡ headings i []
unfolding headings_again headings
headings_again-empty i = refl

headings_again-scan :
    (i : ℕ) (s : State) (ls : List Text) → headings_again i ls (scan s ls) ≡ headings i (scan s ls)
unfolding scan
headings_again-scan i s [] = headings_again-empty i
headings_again-scan i s (l ∷ ls) =
    headings_again-step i l (scan_line s l).1 ls (scan (scan_line s l).0 ls) (scan_line-Titled s l)
      (headings_again-scan (i + 1) (scan_line s l).0 ls)

span-named :
    (text : Text) (d : TaskDocument) (title : Text)
    → parse text ≡ ok d
    → section_span d title ≡ named title (splitlines text) (scan initial (splitlines text))
unfolding section_span
span-named text d title p =
    let a = (parse-Assembled text {d = d} p).1 in
    rw (a.lines_eq, a.marks_eq, headings_again-scan 0 initial (splitlines text)) refl

-- On a parsed document the spans of the status and of the sessions are the sections in which `parse`
-- found them, and no section of sessions is the one that `parse` missed.
pub section_span-parsed :
    (text : Text) (d : TaskDocument)
    → parse text ≡ ok d
    → (section_span d (codes "Status") ≡ ok (some d.status_section))
      × (section_span d (codes "Sessions") ≡ ok d.sessions_section)
section_span-parsed text d p =
    let a = (parse-Assembled text {d = d} p).1 in
    (
      span-named text d (codes "Status") p ∙ a.status_found,
      span-named text d (codes "Sessions") p ∙ a.sessions_found,
    )
