-- ===== src/Policy/Gated.antt =====
-- The verdict on a tool call with the check of src/tasks/gate_edit.py: what an allowed edit of a
-- task.md leaves of the task. `Path.read_text` is a parameter.
use playbook_harness.Base.{
  ◌≡◌, true, Option, none, some, arith, Result, ok, err, Option-cases, inl, inr, >>=-eq-ok,
}
use playbook_harness.Text.{Text, text_mem}
use playbook_harness.Json.{Members}
use playbook_harness.GateEdit.Candidate.{GateEditError, candidate_from_tool_input}
use playbook_harness.GateEdit.Validate.{validate_structured_task_edit}
use playbook_harness.GateEdit.Pointer.{Admitted, validate_task_candidate-Admitted}
use playbook_harness.Policy.{
  ProviderCapabilities, SessionFacts, ToolEvent, allow, code_tools, is_task_control_path,
  evaluate_tool_call,
}
use playbook_harness.Policy.Admission.{OwnsControl, evaluate_tool_call-allow}

-- `OSError` or `GateEditError`
pub data EditError : Type 0 where
  unreadable : EditError
  refused : GateEditError → EditError

abbrev pub refusal : Result GateEditError (Unit {0}) → Option EditError
refusal (ok checked) = none
refusal (err e) = some (refused e)

abbrev pub checked_edit : Option Text → Text → Members → Option EditError
checked_edit none tool_name tool_input = some unreadable
checked_edit (some original) tool_name tool_input =
    refusal (validate_structured_task_edit original tool_name tool_input)

-- The error of `validate_structured_task_edit` on the file of a path.
abbrev pub edit_error : (Text → Option Text) → Text → Text → Members → Option EditError
edit_error read_text path tool_name tool_input = checked_edit (read_text path) tool_name tool_input

-- The edit proposes a text for the task that the session owns, and that text passes the check.
pub record IsGated (realpath : Text → Text) (read_text : Text → Option Text) (facts : SessionFacts)
    (event : ToolEvent Members) : Type 0 where
  pub active : Text
  pub owned : facts.active_task_path ≡ some active
  pub same_file : realpath event.file_path ≡ realpath active
  pub original : Text
  pub present : read_text (realpath active) ≡ some original
  pub candidate : Text
  pub proposed : candidate_from_tool_input original event.tool_name event.tool_input ≡ ok candidate
  pub admitted : Admitted original candidate

validate_structured_task_edit-Admitted :
    (original tool_name : Text) (input : Members)
    → refusal (validate_structured_task_edit original tool_name input) ≡ none
    → (candidate : Text) × (candidate_from_tool_input original tool_name input ≡ ok candidate)
      × Admitted original candidate
unfolding validate_structured_task_edit
validate_structured_task_edit-Admitted original tool_name input h =
    let k : validate_structured_task_edit original tool_name input ≡ ok tt = ground arith in
    let (candidate, p, q) = >>=-eq-ok (candidate_from_tool_input original tool_name input) _ k in
    (candidate, p, validate_task_candidate-Admitted original candidate q)

-- A code tool that a hook allows on the task.md of a task: the session owns that task, its file can
-- be read, the tool proposes a text for it, and that text keeps the status, the sessions and the
-- mode of the task. Off a monitor board its count of checked gates is larger by one and the gate
-- in the place of the first open one is checked, or its count is no larger.
pub evaluate_tool_call-IsGated :
    (realpath extension : Text → Text) (read_text : Text → Option Text)
    (caps : ProviderCapabilities) (facts : SessionFacts) (event : ToolEvent Members)
    → text_mem event.tool_name code_tools ≡ true
    → is_task_control_path event.file_path ≡ true
    → evaluate_tool_call realpath extension (edit_error read_text) caps facts event ≡ allow
    → IsGated realpath read_text facts event
evaluate_tool_call-IsGated realpath extension read_text caps facts event t p h =
    let o : OwnsControl realpath extension (edit_error read_text) facts event =
      elim ((evaluate_tool_call-allow realpath extension (edit_error read_text) caps facts event t
        h).1) [ inl (c, o) ↦ o | inr (c, k) ↦ absurd (ground arith) ] in
    elim (Option-cases (read_text (realpath o.active))) [
      | inl e ↦ absurd (ground (arith, o.checked))
      | inr (original, e) ↦
          let (candidate, q, a) =
            validate_structured_task_edit-Admitted original event.tool_name event.tool_input
              (rw e at o.checked) in
          record {
            active = o.active;
            owned = o.owned;
            same_file = o.same_file;
            original = original;
            present = e;
            candidate = candidate;
            proposed = q;
            admitted = a;
          }
    ]
