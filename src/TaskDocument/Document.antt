-- ===== src/TaskDocument/Document.antt =====
-- `TaskDocument`, how it is parsed, and its properties.
use playbook_harness.Base.{
  ℕ, ◌+◌, Bool, false, not, ◌&&◌, ◌||◌, Option, none, some, List, [], ◌∷◌, ◌==◌, if◌then◌else◌, ltb,
  length, Result, ok, err, ◌>>=◌, is_empty, map_err,
}
use playbook_harness.Text.{Text, codes, strip, lower, text_eq, is_blank_line}
use playbook_harness.Text.Lines.{splitlines}
use playbook_harness.Identity.{SessionKey, from_values}
use playbook_harness.TaskDocument.Grammar.{
  gate_match, session_match, line_ending, monitor_board_marker,
}
use playbook_harness.TaskDocument.Scan.{Mark, initial, scan, scan_end, headings}

-- `TaskDocumentError` and its subclasses, without their messages.
pub data DocumentError : Type 0 where
  unterminated_chat missing_status no_status_token unsupported_status : DocumentError
  duplicate_heading : Text → DocumentError
  malformed_session : ℕ → DocumentError
  no_owner not_claimed no_open_gate : DocumentError
  empty_old_text old_text_missing ambiguous_edit authority_changed many_gates : DocumentError
  claim_conflict : SessionKey → DocumentError
  cas_mismatch : DocumentError

pub data Status : Type 0 where
  pending in_progress done : Status

pub Status-discrete : Discrete Status
Status-discrete = hlevel

abbrev pub status_text : Status → Text
status_text pending = codes "pending"
status_text in_progress = codes "in_progress"
status_text done = codes "done"

-- `_STATUS_ALIASES`
unfoldable pub status_alias : Text → Result DocumentError Status
status_alias t =
    if text_eq t (codes "pending")
    then ok pending
    else if text_eq t (codes "in_progress") || text_eq t (codes "in-progress")
    then ok in_progress
    else if text_eq t (codes "done")
        || text_eq t (codes "complete")
        || text_eq t (codes "completed")
    then ok done
    else err unsupported_status

-- `_canonical_status`
unfoldable pub canonical_status : Text → Result DocumentError Status
unfolding status_alias
canonical_status value = status_alias (lower (strip value))

pub record Section : Type 0 where
  pub heading : ℕ
  pub end : ℕ

pub record TaskGate : Type 0 where
  pub line : ℕ
  pub checked : Bool
  pub text : Text

pub record TaskDocument : Type 0 where
  pub lines : List Text
  pub status : Status
  pub sessions : List SessionKey
  pub status_section : Section
  pub status_value_line : ℕ
  pub sessions_section : Option Section
  pub newline : Text
  pub marks : List Mark

abbrev next_heading : ℕ → List (ℕ × Text) → ℕ
next_heading total [] = total
next_heading total ((i, title) ∷ hs) = i

-- The sections of one title.
unfoldable pub sections_named : Text → ℕ → List (ℕ × Text) → List Section
unfolding text_eq
sections_named name total [] = []
sections_named name total ((i, title) ∷ hs) =
    let rest = sections_named name total hs in
    if text_eq title name then record { heading = i; end = next_heading total hs } ∷ rest else rest

abbrev pub one_section : Text → List Section → Result DocumentError (Option Section)
one_section name [] = ok none
one_section name (s ∷ []) = ok (some s)
one_section name (s ∷ t ∷ ss) = err (duplicate_heading name)

-- The semantic lines of a section that are not blank, with their numbers.
unfoldable pub values : Section → ℕ → List Text → List Mark → List (ℕ × Text)
values s i (l ∷ ls) (m ∷ ms) =
    let rest = values s (i + 1) ls ms in
    if ltb s.heading i && ltb i s.end && m.semantic && not (is_blank_line l)
    then (i, l) ∷ rest
    else rest
values s i _ _ = []

abbrev pub session_entry : ℕ → Option (Text × Text) → Result DocumentError SessionKey
session_entry i none = err (malformed_session (i + 1))
session_entry i (some (provider, id)) =
    map_err (λ _. malformed_session (i + 1)) (from_values provider (some id))

unfoldable pub parse_sessions : List (ℕ × Text) → Result DocumentError (List SessionKey)
parse_sessions [] = ok []
parse_sessions ((i, l) ∷ vs) = do
  key ← session_entry i (session_match l)
  keys ← parse_sessions vs
  ok (key ∷ keys)

unfoldable pub first_ending : List Text → Text
first_ending [] = codes "\n"
first_ending (l ∷ ls) =
    let rest = first_ending ls in if is_empty (line_ending l) then rest else line_ending l

abbrev pub require_status : Option Section → Result DocumentError Section
require_status none = err missing_status
require_status (some s) = ok s

abbrev pub first_value : List (ℕ × Text) → Result DocumentError (ℕ × Text)
first_value [] = err no_status_token
first_value (v ∷ vs) = ok v

abbrev pub section_values : Option Section → List Text → List Mark → List (ℕ × Text)
section_values none lines marks = []
section_values (some s) lines marks = values s 0 lines marks

-- The rest of `parse`, behind the loop.
unfoldable pub assemble : List Text → List Mark → Result DocumentError TaskDocument
assemble lines marks = do
  found ←
      one_section (codes "Status")
        (sections_named (codes "Status") (length lines) (headings 0 marks))
  status_section ← require_status found
  token ← first_value (values status_section 0 lines marks)
  status ← canonical_status token.1
  sessions_section ←
      one_section (codes "Sessions")
        (sections_named (codes "Sessions") (length lines) (headings 0 marks))
  sessions ← parse_sessions (section_values sessions_section lines marks)
  ok (record {
    lines = lines;
    status = status;
    sessions = sessions;
    status_section = status_section;
    status_value_line = token.0;
    sessions_section = sessions_section;
    newline = first_ending lines;
    marks = marks;
  })

unfoldable pub parse_lines : List Text → Result DocumentError TaskDocument
parse_lines lines =
    if (scan_end initial lines).opaque
    then err unterminated_chat
    else assemble lines (scan initial lines)

-- `TaskDocument.parse`
unfoldable pub parse : Text → Result DocumentError TaskDocument
parse text = parse_lines (splitlines text)

-- `group(1).lower() == "x"`
abbrev pub is_checked_mark : ℕ → Bool
is_checked_mark m = m == b'x' || m == b'X'

-- The gates from line `i` on.
unfoldable pub gates_from : ℕ → List Text → List Mark → List TaskGate
gates_from i (l ∷ ls) (m ∷ ms) =
    let rest = gates_from (i + 1) ls ms in
    if m.semantic
    then elim (gate_match l) [
      | none ↦ rest
      | some g ↦ record { line = i; checked = is_checked_mark g.0; text = g.1 } ∷ rest
    ]
    else rest
gates_from i _ _ = []

-- The property `gates`.
abbrev pub gates : TaskDocument → List TaskGate
gates d = gates_from 0 d.lines d.marks

unfoldable pub has_marker : List Text → List Mark → Bool
has_marker (l ∷ ls) (m ∷ ms) =
    (m.semantic && text_eq (strip l) monitor_board_marker) || has_marker ls ms
has_marker _ _ = false

-- The property `is_monitor_board`.
abbrev pub is_monitor_board : TaskDocument → Bool
is_monitor_board d = has_marker d.lines d.marks

unfoldable pub count_checked : List TaskGate → ℕ
count_checked [] = 0
count_checked (g ∷ gs) = (if g.checked then 1 else 0) + count_checked gs

-- The property `progress`.
abbrev pub progress : TaskDocument → ℕ × ℕ
progress d = (count_checked (gates d), length (gates d))

abbrev last_key : List SessionKey → Result DocumentError SessionKey
last_key [] = err no_owner
last_key (k ∷ []) = ok k
last_key (k ∷ j ∷ ks) = last_key (j ∷ ks)

-- `_live_owner`
unfoldable pub live_owner : TaskDocument → Result DocumentError (Option SessionKey)
live_owner d = elim d.status [
  | in_progress ↦ do owner ← last_key d.sessions; ok (some owner)
  | _ ↦ ok none
]
