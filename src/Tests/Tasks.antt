-- ===== src/Tests/Tasks.antt =====
-- Runs of the task document's operations, and instances of its theorems.
use playbook_harness.Text.Edit.{replace_first, count_from, count}
use playbook_harness.Base.{◌≡◌, refl, Bool, false, none, some, List, [], ◌∷◌, Result, ok, err, ◌+◌}
use playbook_harness.Text.{
  Text, codes, text_eq, strip, is_blank_line, lower, after_prefix, starts_with,
}
use playbook_harness.Text.Lines.{splitlines, is_break}
use playbook_harness.Identity.{
  SessionKey, from_values, identity_spec, find_spec, canonical_provider, validate_native_session_id,
  key_eq,
}
use playbook_harness.TaskDocument.Grammar.{
  heading_title, fence_match, gate_match, gate_box, session_match, line_ending, is_blank,
  has_content, skip_blanks, skip_spaces, run_length,
}
use playbook_harness.TaskDocument.Scan.{scan, scan_end, scan_line, headings, toggle}
use playbook_harness.TaskDocument.Document.{
  count_checked, DocumentError, claim_conflict, TaskGate, TaskDocument, pending, parse, parse_lines,
  gates, canonical_status, sections_named, values, parse_sessions, first_ending, assemble,
  gates_from, live_owner, progress,
}
use playbook_harness.TaskDocument.Render.{render, is_last_session, insert_session}
use playbook_harness.TaskDocument.Claim.{
  claim_task_document, complete_task_document, claim_verdict, owned_by,
}
use playbook_harness.TaskDocument.Gates.{complete_next_gate, open_gates}
use playbook_harness.TaskDocument.Replace.{
  closed_gates, transitions, status_eq, sessions_eq, same_authority, replacement_gate_closures,
  located, find_closures, edit_owned, checked_with, boxes, admit_candidate,
  replace_claimed_task_text_with_closures,
}
use playbook_harness.TaskDocument.Ownership.{foreign_session_writes_nothing}
use playbook_harness.TaskDocument.Authority.{EditResult, replace_claimed-keeps_authority}
use playbook_harness.TaskDocument.GateClosed.{
  GateClosed, complete_next_gate-closes_first, complete_next_gate-progress,
}
use playbook_harness.TaskDocument.Position.{section_span, section_span-parsed}

abbrev task : Text
task =
    codes
      "# 7\n\n## Status\npending\n\n## Plan\n```\n- [ ] no\n```\n- [ ] one\n- [x] two\n- [ ] three\n"

abbrev pub owned : Text
owned =
    codes
      "# 7\n\n## Status\nin_progress\n\n## Sessions\n\n- claude:a1\n\n## Plan\n```\n- [ ] no\n```\n- [ ] one\n- [x] two\n- [ ] three\n"

abbrev pub key_a : SessionKey
key_a = record { provider = codes "claude"; session_id = codes "a1" }

abbrev pub key_b : SessionKey
key_b = record { provider = codes "codex"; session_id = codes "b2" }

claimed_text : Text
unfolding claim_task_document parse parse_lines toggle render text_eq strip is_blank_line lower
    after_prefix starts_with splitlines is_break from_values identity_spec find_spec
    canonical_provider validate_native_session_id key_eq heading_title fence_match gate_match
    session_match line_ending is_blank has_content scan scan_end scan_line headings canonical_status
    sections_named values parse_sessions first_ending assemble live_owner is_last_session
    insert_session claim_verdict run_length skip_spaces skip_blanks
claimed_text = (claim_task_document task key_a none).1

claimed : claimed_text ≡ owned
unfolding claimed_text
claimed = refl

abbrev document_of : Result DocumentError TaskDocument → TaskDocument
document_of (ok d) = d
document_of (err e) = record {
  lines = [];
  status = pending;
  sessions = [];
  status_section = record { heading = 0; end = 0 };
  status_value_line = 0;
  sessions_section = none;
  newline = [];
  marks = [];
}

abbrev pub owned_document : TaskDocument
owned_document = document_of (parse owned)

pub owned-parsed : parse owned ≡ ok owned_document
unfolding parse parse_lines toggle text_eq strip is_blank_line lower after_prefix starts_with
    splitlines is_break from_values identity_spec find_spec canonical_provider
    validate_native_session_id heading_title fence_match session_match line_ending is_blank
    has_content scan scan_end scan_line headings canonical_status sections_named values
    parse_sessions first_ending assemble run_length skip_spaces skip_blanks
owned-parsed = refl

owned-live_owner : live_owner owned_document ≡ ok (some key_a)
unfolding live_owner parse parse_lines toggle text_eq strip is_blank_line lower after_prefix
    starts_with splitlines is_break from_values identity_spec find_spec canonical_provider
    validate_native_session_id heading_title fence_match session_match line_ending is_blank
    has_content scan scan_end scan_line headings canonical_status sections_named values
    parse_sessions first_ending assemble run_length skip_spaces skip_blanks
owned-live_owner = refl

keys-differ : key_eq key_a key_b ≡ false
unfolding key_eq text_eq
keys-differ = refl

pub owned-by_a : owned_by owned_document key_a ≡ ok tt
unfolding live_owner parse parse_lines toggle text_eq strip is_blank_line lower after_prefix
    starts_with splitlines is_break from_values identity_spec find_spec canonical_provider
    validate_native_session_id key_eq heading_title fence_match session_match line_ending is_blank
    has_content scan scan_end scan_line headings canonical_status sections_named values
    parse_sessions first_ending assemble run_length skip_spaces skip_blanks
owned-by_a = refl

abbrev pub gate_one : TaskGate
gate_one = record { line = 13; checked = false; text = codes "one" }

abbrev pub gate_three : TaskGate
gate_three = record { line = 15; checked = false; text = codes "three" }

pub owned-open_gates : open_gates (gates owned_document) ≡ gate_one ∷ gate_three ∷ []
unfolding open_gates gates_from gate_match gate_box live_owner parse parse_lines toggle text_eq
    strip is_blank_line lower after_prefix starts_with splitlines is_break from_values identity_spec
    find_spec canonical_provider validate_native_session_id heading_title fence_match session_match
    line_ending is_blank has_content scan scan_end scan_line headings canonical_status
    sections_named values parse_sessions first_ending assemble run_length skip_spaces skip_blanks
owned-open_gates = refl

foreign_session_writes_nothing_example :
    (claim_task_document owned key_b none ≡ (err (claim_conflict key_a), owned))
    × (complete_task_document owned key_b ≡ (err (claim_conflict key_a), owned))
    × (complete_next_gate owned key_b ≡ (err (claim_conflict key_a), owned))
    × ((old new : Text) (every replay : Bool)
        → (replace_claimed_task_text_with_closures owned key_b old new every replay).1 ≡ owned)
foreign_session_writes_nothing_example =
    foreign_session_writes_nothing owned owned_document key_a key_b owned-parsed owned-live_owner
      keys-differ

replace_claimed-keeps_authority_example : EditResult owned owned_document (
    replace_claimed_task_text_with_closures owned key_a
      (codes "[ ] one")
      (codes "[x] one")
      false
      false)
replace_claimed-keeps_authority_example =
    replace_claimed-keeps_authority owned key_a (codes "[ ] one") (codes "[x] one") false false
      owned_document owned-parsed

complete_next_gate-closes_first_example :
    (upcoming : List Text) × ((complete_next_gate owned key_a).0 ≡ ok (codes "one", upcoming))
    × GateClosed owned_document 13 (complete_next_gate owned key_a).1
complete_next_gate-closes_first_example =
    complete_next_gate-closes_first owned key_a owned_document gate_one (gate_three ∷ [])
      owned-parsed owned-by_a owned-open_gates

complete_next_gate-progress_example :
    (after : TaskDocument) × (parse (complete_next_gate owned key_a).1 ≡ ok after)
    × (open_gates (gates after) ≡ gate_three ∷ [])
    × (progress after ≡ ((progress owned_document).0 + 1, (progress owned_document).1))
complete_next_gate-progress_example =
    complete_next_gate-progress owned key_a owned_document gate_one (gate_three ∷ []) owned-parsed
      owned-by_a owned-open_gates

section_span-parsed_example :
    (section_span owned_document (codes "Status") ≡ ok (some owned_document.status_section))
    × (section_span owned_document (codes "Sessions") ≡ ok owned_document.sessions_section)
section_span-parsed_example = section_span-parsed owned owned_document owned-parsed

-- Two gates are closed and one is opened: the count rises by one, and one closure is reported.
abbrev mixed : Text
mixed =
    codes
      "## Status\nin_progress\n\n## Sessions\n\n- claude:a1\n\n## Plan\n- [ ] a\n- [ ] b\n- [x] b\n- [x] c\n"

abbrev swapped_gates : Text
swapped_gates =
    codes
      "## Status\nin_progress\n\n## Sessions\n\n- claude:a1\n\n## Plan\n- [x] a\n- [x] b\n- [x] b\n- [ ] c\n"

two-closed :
    (replace_claimed_task_text_with_closures mixed key_a
      (codes "- [ ] a\n- [ ] b\n- [x] b\n- [x] c")
      (codes "- [x] a\n- [x] b\n- [x] b\n- [ ] c")
      false
      false).1
    ≡ swapped_gates
unfolding replace_claimed_task_text_with_closures parse parse_lines scan_end splitlines is_break
    scan_line text_eq strip fence_match skip_spaces assemble sections_named headings scan
    heading_title after_prefix canonical_status count_checked first_ending gates_from live_owner
    parse_sessions values gate_box gate_match has_content is_blank line_ending run_length
    session_match skip_blanks admit_candidate boxes checked_with edit_owned find_closures located
    replacement_gate_closures same_authority sessions_eq status_eq transitions toggle count
    count_from replace_first is_blank_line lower starts_with key_eq closed_gates from_values
    identity_spec find_spec canonical_provider validate_native_session_id
two-closed = refl
