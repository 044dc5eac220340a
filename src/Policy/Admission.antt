-- ===== src/Policy/Admission.antt =====
-- What an allowed edit implies.
use playbook_harness.Base.{
  ◌≡◌, refl, ◌⊎◌, inl, inr, true, false, Option, none, some, arith, Bool-cases,
}
use playbook_harness.Text.{Text, text_eq_iff, text_mem}
use playbook_harness.Policy.{
  ProviderCapabilities, SessionFacts, ToolEvent, allow, is_set, is_told, code_tools,
  is_task_control_path, is_management_path, is_code_file_path, judge_control, evaluate_tool_call,
}

module _ {Input Error : Type 0} (realpath extension : Text → Text)
    (edit_error : Text → Text → Input → Option Error) where
  -- The task.md that the session owns, and an edit of it that passes the check.
  pub record OwnsControl (facts : SessionFacts) (event : ToolEvent Input) : Type 0 where
    pub active : Text
    pub owned : facts.active_task_path ≡ some active
    pub same_file : realpath event.file_path ≡ realpath active
    pub checked : edit_error (realpath active) event.tool_name event.tool_input ≡ none

  judge_control-OwnsControl :
      (facts : SessionFacts) (event : ToolEvent Input) (o : Option Text)
      → facts.active_task_path ≡ o
      → judge_control realpath extension edit_error facts event o ≡ allow
      → OwnsControl facts event
  judge_control-OwnsControl facts event none e h = ground arith
  judge_control-OwnsControl facts event (some active) e h =
      let k : (realpath event.file_path ≡ realpath active)
          × (edit_error (realpath active) event.tool_name event.tool_input ≡ none) =
        ground (arith, text_eq_iff (realpath event.file_path) (realpath active)) in
      record { active = active; owned = e; same_file = k.0; checked = k.1 }

  -- A code tool that a hook allows has no authority error against it; on the task.md of a task it
  -- edits the one that the session owns, with an edit that passes the check, and on another file
  -- the session has a task, or the file is a management file or no code.
  pub evaluate_tool_call-allow :
      (caps : ProviderCapabilities) (facts : SessionFacts) (event : ToolEvent Input)
      → text_mem event.tool_name code_tools ≡ true
      → evaluate_tool_call realpath extension edit_error caps facts event ≡ allow
      → (is_told facts.authority_error ≡ false)
        × (((is_task_control_path event.file_path ≡ true) × OwnsControl facts event)
            ⊎ ((is_task_control_path event.file_path ≡ false)
                × ((is_set facts.active_task_number ≡ true)
                    ⊎ ((is_management_path event.file_path ≡ true)
                        ⊎ (is_code_file_path extension event.file_path ≡ false)))))
  unfolding evaluate_tool_call
  evaluate_tool_call-allow caps facts event t h =
      elim (Bool-cases (is_task_control_path event.file_path)) [
        | inl c ↦
            let k : (is_told facts.authority_error ≡ false)
                × (judge_control realpath extension edit_error facts event facts.active_task_path
                    ≡ allow) =
              ground (arith, c) in
            (k.0, inl (c, judge_control-OwnsControl facts event facts.active_task_path refl k.1))
        | inr c ↦ ground (arith, c)
      ]
