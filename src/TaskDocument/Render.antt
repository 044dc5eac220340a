-- ===== src/TaskDocument/Render.antt =====
-- `TaskDocument.render`: the managed values are written, all other lines stay.
use playbook_harness.Base.{
  ℕ, zero, suc, ◌+◌, ◌-◌, Bool, false, ◌&&◌, ◌||◌, Option, none, some, List, [], ◌∷◌, ◌++◌, ◌==◌,
  if◌then◌else◌, ltb, Result, ok, ◌>>=◌, get_or, set, insert_at,
}
use playbook_harness.Text.{Text, codes, is_blank_line}
use playbook_harness.Text.Lines.{join}
use playbook_harness.Identity.{SessionKey, key_eq}
use playbook_harness.TaskDocument.Grammar.{line_ending}
use playbook_harness.TaskDocument.Document.{
  DocumentError, Status, status_text, canonical_status, Section, TaskDocument,
}

-- `canonical`: the status that is written.
abbrev pub chosen_status : TaskDocument → Option Text → Result DocumentError Status
chosen_status d none = ok d.status
chosen_status d (some status) = canonical_status status

abbrev pub with_status : TaskDocument → Status → List Text
with_status d status =
    set d.lines d.status_value_line
      (status_text status ++ line_ending (get_or d.lines d.status_value_line []))

-- `self.sessions and self.sessions[-1] == append_session`
unfoldable pub is_last_session : List SessionKey → SessionKey → Bool
is_last_session [] key = false
is_last_session (k ∷ []) key = key_eq k key
is_last_session (k ∷ j ∷ ks) key = is_last_session (j ∷ ks) key

abbrev pub session_entry_line : TaskDocument → SessionKey → Text
session_entry_line d key =
    codes "- " ++ (key.provider ++ (codes ":" ++ (key.session_id ++ d.newline)))

-- The `while` loop: from the end of the section back over its blank lines.
unfoldable pub back_over_blanks : ℕ → List Text → ℕ → ℕ
back_over_blanks first lines zero = zero
back_over_blanks first lines (suc n) =
    let back = back_over_blanks first lines n in
    if ltb first (suc n) && is_blank_line (get_or lines n []) then back else suc n

abbrev pub new_section : TaskDocument → Text → Text → Text
new_section d prefix entry =
    prefix ++ (codes "## Sessions" ++ (d.newline ++ (d.newline ++ (entry ++ d.newline))))

unfoldable pub insert_session : TaskDocument → List Text → SessionKey → Option Section → List Text
unfolding back_over_blanks
insert_session d lines key (some s) =
    insert_at (back_over_blanks (s.heading + 1) lines s.end) (session_entry_line d key) lines
insert_session d lines key none =
    let at = d.status_section.end in
    let prefix = if at == 0 || is_blank_line (get_or lines (at - 1) []) then [] else d.newline in
    insert_at at (new_section d prefix (session_entry_line d key)) lines

abbrev pub with_session : TaskDocument → List Text → Option SessionKey → List Text
with_session d lines none = lines
with_session d lines (some key) =
    if is_last_session d.sessions key then lines else insert_session d lines key d.sessions_section

unfoldable pub render : TaskDocument → Option Text → Option SessionKey → Result DocumentError Text
unfolding is_last_session insert_session
render d status append_session = do
  canonical ← chosen_status d status
  ok (join (with_session d (with_status d canonical) append_session))
