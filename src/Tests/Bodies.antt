-- ===== src/Tests/Bodies.antt =====
-- Bodies of chat entries, and instances of the theorems on them.
use playbook_harness.Identity.{all_id_chars, is_alnum}
use playbook_harness.Base.{◌≡◌, refl, some, ok}
use playbook_harness.Text.{text_eq, ends_with, starts_with, after_prefix, Text, codes}
use playbook_harness.ChatLog.{
  is_session_name, all_key_chars, is_event_key, has_return, split_at, all_name_chars, is_name,
  all_digits, is_marker, validate_entry_values,
}
use playbook_harness.ChatLog.Body.{
  decode_from, first_line, is_header, encode_from, encode_body, decode_body,
}

abbrev forged : Text
forged = codes "hi\n**[M007]** [now]"

abbrev escaped : Text
escaped = codes "\\**[M007]** x"

forged-encoded : encode_body forged ≡ codes "hi\n\\**[M007]** [now]"
unfolding encode_from is_header first_line is_marker all_digits is_name all_name_chars split_at
    has_return after_prefix starts_with ends_with text_eq
forged-encoded = refl

entry-valid :
    validate_entry_values (codes "T7:done") (codes "now") forged (some (codes "one")) (codes "k:1")
    ≡ ok tt
unfolding validate_entry_values is_event_key all_key_chars is_session_name is_alnum all_id_chars
    is_header first_line is_marker all_digits is_name all_name_chars split_at has_return
    after_prefix starts_with ends_with text_eq
entry-valid = refl

-- A line that begins with a backslash and a header loses the backslash.
escaped-lost : decode_body (encode_body escaped) ≡ codes "**[M007]** x"
unfolding encode_from decode_from is_header first_line is_marker all_digits is_name all_name_chars
    split_at has_return after_prefix starts_with ends_with text_eq
escaped-lost = refl
