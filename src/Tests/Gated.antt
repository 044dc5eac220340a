-- ===== src/Tests/Gated.antt =====
-- An edit of the task.md that a session owns, checked on the text of the file.
use playbook_harness.Text.Edit.{replace_first, count_from, count}
use playbook_harness.GateEdit.Candidate.{splice, edit_once, candidate_from_tool_input}
use playbook_harness.GateEdit.Validate.{
  bool_eq, first_open, validate_structured_task_edit, validate_task_candidate, check_documents,
}
use playbook_harness.TaskDocument.Replace.{sessions_eq, status_eq, same_authority}
use playbook_harness.TaskDocument.Grammar.{
  gate_box, gate_match, skip_blanks, skip_spaces, run_length, has_content, is_blank, line_ending,
  fence_match, heading_title,
}
use playbook_harness.Text.Lines.{is_break, splitlines}
use playbook_harness.TaskDocument.Scan.{headings, scan_line, scan_end, scan, toggle}
use playbook_harness.TaskDocument.Document.{
  has_marker, count_checked, gates_from, assemble, first_ending, parse_sessions, values,
  sections_named, canonical_status, parse_lines, parse,
}
use playbook_harness.Base.{◌≡◌, refl, true, Option, some}
use playbook_harness.Text.{
  starts_with, after_prefix, lower, is_blank_line, strip, Text, codes, text_mem, text_eq,
}
use playbook_harness.Json.{get, Members}
use playbook_harness.Policy.{
  last_parts, split_path, normalized, ToolEvent, allow, code_tools, is_task_control_path,
  evaluate_tool_call,
}
use playbook_harness.Policy.Gated.{IsGated, edit_error, evaluate_tool_call-IsGated}
use playbook_harness.Tests.Policies.{in_work_tree, markdown, claude, facts}
use playbook_harness.Tests.Edits.{task, check_one}

abbrev read_task : Text → Option Text
read_task path = some task

abbrev edit : ToolEvent Members
edit = record {
  tool_name = codes "Edit";
  tool_input = check_one;
  file_path = codes ".agent/tasks/007-x/task.md";
}

is_code_tool : text_mem (codes "Edit") code_tools ≡ true
unfolding text_mem text_eq
is_code_tool = refl

is_control_file : is_task_control_path (codes ".agent/tasks/007-x/task.md") ≡ true
unfolding is_task_control_path normalized split_path last_parts text_eq
is_control_file = refl

edit-allowed :
    evaluate_tool_call in_work_tree markdown (edit_error read_task) claude facts edit ≡ allow
unfolding parse parse_lines toggle text_eq strip is_blank_line lower after_prefix starts_with
    splitlines is_break heading_title fence_match line_ending is_blank has_content scan scan_end
    scan_line headings canonical_status sections_named values parse_sessions first_ending assemble
    run_length skip_spaces skip_blanks gates_from gate_match gate_box count_checked has_marker
    text_mem is_task_control_path normalized split_path last_parts evaluate_tool_call same_authority
    status_eq sessions_eq check_documents validate_task_candidate validate_structured_task_edit
    first_open bool_eq candidate_from_tool_input edit_once get splice count count_from replace_first
edit-allowed = refl

evaluate_tool_call-IsGated_example : IsGated in_work_tree read_task facts edit
evaluate_tool_call-IsGated_example =
    evaluate_tool_call-IsGated in_work_tree markdown read_task claude facts edit is_code_tool
      is_control_file edit-allowed
