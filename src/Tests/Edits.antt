-- ===== src/Tests/Edits.antt =====
-- Edits of a task.md, and instances of the theorems on them.
use playbook_harness.TaskDocument.Replace.{sessions_eq, status_eq, same_authority}
use playbook_harness.TaskDocument.Grammar.{
  gate_box, gate_match, skip_blanks, skip_spaces, run_length, has_content, is_blank, line_ending,
  fence_match, heading_title,
}
use playbook_harness.TaskDocument.Scan.{headings, scan_line, scan_end, scan, toggle}
use playbook_harness.Base.{◌≡◌, refl, true, some, [], ◌∷◌, ok}
use playbook_harness.Text.{
  Text, codes, text_eq, starts_with, after_prefix, ends_with, strip, is_blank_line, lower,
}
use playbook_harness.Text.Lines.{splitlines, is_break}
use playbook_harness.Text.Edit.{count, count_from, replace_first}
use playbook_harness.Text.Bare.{bare_lines, chop, chop_all, contains, join_lines}
use playbook_harness.Json.{Members, string, member, no_members, get}
use playbook_harness.TaskDocument.Document.{
  has_marker, count_checked, gates_from, assemble, first_ending, parse_sessions, values,
  sections_named, canonical_status, parse_lines, parse,
}
use playbook_harness.TaskDocument.Gates.{complete_next_gate}
use playbook_harness.Policy.{normalized}
use playbook_harness.GateEdit.Candidate.{splice, edit_once, candidate_from_tool_input}
use playbook_harness.GateEdit.Patch.{
  replace_once, new_side, old_side, apply_chunks, apply_updates, drop_slashes, split_chunks,
  candidate_from_apply_patch, normalize_path, split_updates,
}
use playbook_harness.GateEdit.Validate.{
  closure_between, bool_eq, first_open, check_documents, validate_task_candidate,
  gate_closure_from_documents,
}
use playbook_harness.GateEdit.Pointer.{Admitted, validate_task_candidate-Admitted}
use playbook_harness.GateEdit.Closure.{ClosureOutcome, gate_closure_from_documents-total}
use playbook_harness.GateEdit.Completed.{complete_next_gate-admitted}
use playbook_harness.GateEdit.Spliced.{IsEdit, candidate_from_tool_input-IsEdit}
use playbook_harness.GateEdit.Patched.{
  Patched, names_any, target_chunks, candidate_from_apply_patch-Patched,
}
use playbook_harness.Tests.Tasks.{
  owned, owned_document, key_a, gate_one, gate_three, owned-parsed, owned-by_a, owned-open_gates,
}

abbrev pub task : Text
task = codes "## Status\npending\n\n- [ ] one\n- [ ] two\n"

abbrev advanced : Text
advanced = codes "## Status\npending\n\n- [x] one\n- [ ] two\n"

abbrev reordered : Text
reordered = codes "## Status\npending\n\n- [x] two\n- [ ] one\n"

abbrev pub check_one : Members
check_one =
    member (codes "old_string") (string (codes "[ ] one"))
      (member (codes "new_string") (string (codes "[x] one")) no_members)

abbrev patch : Text
patch =
    codes "*** Begin Patch\n*** Update File: 7/task.md\n@@\n-- [ ] one\n+- [x] one\n*** End Patch\n"

advanced-valid : validate_task_candidate task advanced ≡ ok tt
unfolding parse parse_lines toggle text_eq strip is_blank_line lower after_prefix starts_with
    splitlines is_break heading_title fence_match line_ending is_blank has_content scan scan_end
    scan_line headings canonical_status sections_named values parse_sessions first_ending assemble
    run_length skip_spaces skip_blanks gates_from gate_match gate_box count_checked has_marker
    same_authority status_eq sessions_eq check_documents validate_task_candidate first_open bool_eq
advanced-valid = refl

validate_task_candidate-Admitted_example : Admitted task advanced
validate_task_candidate-Admitted_example =
    validate_task_candidate-Admitted task advanced advanced-valid

-- The check compares places: the second gate is closed in the place of the first.
reordered-valid : validate_task_candidate task reordered ≡ ok tt
unfolding parse parse_lines toggle text_eq strip is_blank_line lower after_prefix starts_with
    splitlines is_break heading_title fence_match line_ending is_blank has_content scan scan_end
    scan_line headings canonical_status sections_named values parse_sessions first_ending assemble
    run_length skip_spaces skip_blanks gates_from gate_match gate_box count_checked has_marker
    same_authority status_eq sessions_eq check_documents validate_task_candidate first_open bool_eq
reordered-valid = refl

advanced-closure :
    gate_closure_from_documents task advanced
    ≡ ok (some (record { line = 3; before = codes "one"; after = codes "one" }))
unfolding parse parse_lines toggle text_eq strip is_blank_line lower after_prefix starts_with
    splitlines is_break heading_title fence_match line_ending is_blank has_content scan scan_end
    scan_line headings canonical_status sections_named values parse_sessions first_ending assemble
    run_length skip_spaces skip_blanks gates_from gate_match gate_box count_checked has_marker
    same_authority status_eq sessions_eq check_documents validate_task_candidate first_open bool_eq
    gate_closure_from_documents closure_between
advanced-closure = refl

gate_closure_from_documents-total_example :
    ClosureOutcome task advanced (gate_closure_from_documents task advanced)
gate_closure_from_documents-total_example = gate_closure_from_documents-total task advanced

complete_next_gate-admitted_example :
    (validate_task_candidate owned (complete_next_gate owned key_a).1 ≡ ok tt)
    × (gate_closure_from_documents owned (complete_next_gate owned key_a).1
        ≡ ok (some (record { line = 13; before = codes "one"; after = codes "one" })))
complete_next_gate-admitted_example =
    complete_next_gate-admitted owned key_a owned_document gate_one (gate_three ∷ []) owned-parsed
      owned-by_a owned-open_gates

task-edited : candidate_from_tool_input task (codes "Edit") check_one ≡ ok advanced
unfolding text_eq candidate_from_tool_input edit_once get splice count count_from replace_first
    starts_with after_prefix
task-edited = refl

candidate_from_tool_input-IsEdit_example : IsEdit task advanced check_one
candidate_from_tool_input-IsEdit_example =
    candidate_from_tool_input-IsEdit task check_one advanced task-edited

task-patched : candidate_from_apply_patch task patch (codes "/w/7/task.md") ≡ ok advanced
unfolding candidate_from_apply_patch text_eq ends_with splitlines is_break chop chop_all
    split_updates split_chunks after_prefix starts_with strip drop_slashes normalized apply_updates
    apply_chunks old_side new_side join_lines replace_once contains count count_from replace_first
task-patched = refl

candidate_from_apply_patch-Patched_example :
    (names_any (normalize_path (codes "/w/7/task.md")) (split_updates (bare_lines patch)).1 ≡ true)
    × Patched
        (target_chunks (normalize_path (codes "/w/7/task.md")) (split_updates (bare_lines patch)).1)
        task
        advanced
candidate_from_apply_patch-Patched_example =
    candidate_from_apply_patch-Patched task patch (codes "/w/7/task.md") advanced task-patched
