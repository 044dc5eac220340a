-- ===== src/Tests/Policies.antt =====
-- An edit of the task.md that a session owns, and an instance of the theorem on allowed edits.
use playbook_harness.Base.{◌≡◌, refl, ◌⊎◌, true, false, Option, none, some, [], ◌++◌}
use playbook_harness.Text.{Text, codes, text_eq, text_mem}
use playbook_harness.Policy.{
  ProviderCapabilities, SessionFacts, ToolEvent, allow, is_set, is_told, code_tools, normalized,
  split_path, last_parts, is_task_control_path, is_management_path, is_code_file_path,
  evaluate_tool_call,
}
use playbook_harness.Policy.Admission.{OwnsControl, evaluate_tool_call-allow}

abbrev pub in_work_tree : Text → Text
in_work_tree path = codes "/work/" ++ path

abbrev pub markdown : Text → Text
markdown path = codes ".md"

abbrev no_error : Text → Text → Text → Option Text
no_error path tool input = none

abbrev pub claude : ProviderCapabilities
claude = record {
  has_user_prompt_hook = true;
  has_pre_tool_hook = true;
  has_post_tool_hook = true;
  has_stop_hook = true;
}

abbrev pub facts : SessionFacts
facts = record {
  active_task_number = some 7;
  active_task_path = some (codes ".agent/tasks/007-x/task.md");
  authority_error = none;
}

abbrev edit : ToolEvent Text
edit = record {
  tool_name = codes "Edit";
  tool_input = [];
  file_path = codes ".agent/tasks/007-x/task.md";
}

edit-is_code_tool : text_mem (codes "Edit") code_tools ≡ true
unfolding text_mem text_eq
edit-is_code_tool = refl

edit-allowed : evaluate_tool_call in_work_tree markdown no_error claude facts edit ≡ allow
unfolding evaluate_tool_call text_mem text_eq is_task_control_path normalized split_path last_parts
edit-allowed = refl

evaluate_tool_call-allow_example :
    (is_told facts.authority_error ≡ false)
    × (((is_task_control_path edit.file_path ≡ true)
          × OwnsControl in_work_tree markdown no_error facts edit)
        ⊎ ((is_task_control_path edit.file_path ≡ false)
            × ((is_set facts.active_task_number ≡ true)
                ⊎ ((is_management_path edit.file_path ≡ true)
                    ⊎ (is_code_file_path markdown edit.file_path ≡ false)))))
evaluate_tool_call-allow_example =
    evaluate_tool_call-allow in_work_tree markdown no_error claude facts edit edit-is_code_tool
      edit-allowed
