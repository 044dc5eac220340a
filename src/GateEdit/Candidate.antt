-- ===== src/GateEdit/Candidate.antt =====
-- `candidate_from_tool_input`: the document that a structured editor proposes.
use playbook_harness.Base.{
  Bool, false, not, ◌&&◌, Option, none, some, [], ◌∷◌, ◌==◌, if◌then◌else◌, Result, ok, err, ◌>>=◌,
  ltb,
}
use playbook_harness.Text.{Text, codes, text_eq}
use playbook_harness.Text.Edit.{count, replace_first, replace_all}
use playbook_harness.Json.{
  Json, array, object, Items, no_items, item, Members, get, truthy, as_text,
}
use playbook_harness.TaskDocument.Document.{DocumentError}

-- `GateEditError`, by its message.
pub data GateEditError : Type 0 where
  no_content no_old_string no_new_string not_present ambiguous : GateEditError
  no_edits malformed_edit unsupported_editor : GateEditError
  hunk_missing hunk_ambiguous no_context no_update : GateEditError
  unparsed : DocumentError → GateEditError
  authority_edited marker_edited many_closed no_open skipped removed : GateEditError

abbrev pub required_text : GateEditError → Option Text → Result GateEditError Text
required_text e none = err e
required_text e (some t) = ok t

abbrev pub nonempty_text : GateEditError → Option Text → Result GateEditError Text
nonempty_text e none = err e
nonempty_text e (some []) = err e
nonempty_text e (some (c ∷ t)) = ok (c ∷ t)

-- `tool_input.get(key, False)`, as a truth value.
abbrev pub flag : Option Json → Bool
flag none = false
flag (some value) = truthy value

unfoldable pub splice : Text → Text → Text → Bool → Result GateEditError Text
splice original old new every =
    if count old original == 0
    then err not_present
    else if ltb 1 (count old original) && not every
    then err ambiguous
    else ok (if every then replace_all old new original else replace_first old new original)

-- The tool `Edit`.
unfoldable pub edit_once : Text → Members → Result GateEditError Text
edit_once original input = do
  old ← nonempty_text no_old_string (as_text (get (codes "old_string") input))
  new ← required_text no_new_string (as_text (get (codes "new_string") input))
  splice original old new (flag (get (codes "replace_all") input))

abbrev pub edits_of : Option Json → Result GateEditError Items
edits_of (some (array (item x xs))) = ok (item x xs)
edits_of _ = err no_edits

-- The loop of `MultiEdit`.
unfoldable pub apply_edits : Text → Items → Result GateEditError Text
apply_edits candidate no_items = ok candidate
apply_edits candidate (item (object input) rest) = do
  next ← edit_once candidate input
  apply_edits next rest
apply_edits candidate (item _ rest) = err malformed_edit

unfoldable pub candidate_from_tool_input : Text → Text → Members → Result GateEditError Text
candidate_from_tool_input original tool_name tool_input =
    if text_eq tool_name (codes "Write")
    then required_text no_content (as_text (get (codes "content") tool_input))
    else if text_eq tool_name (codes "Edit")
    then edit_once original tool_input
    else if text_eq tool_name (codes "MultiEdit")
    then (do edits ← edits_of (get (codes "edits") tool_input); apply_edits original edits)
    else err unsupported_editor
