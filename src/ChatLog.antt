-- ===== src/ChatLog.antt =====
-- src/tasks/chat_state.py: the markers of chat entries, the values of an entry, and how the body of
-- one is written and read. The digits of a marker are those of ASCII.
pub mod Body
use playbook_harness.Base.{
  ℕ, Bool, true, false, not, ◌&&◌, ◌||◌, Option, none, some, List, [], ◌∷◌, ◌==◌, if◌then◌else◌,
  Result, ok, err, ◌>>=◌, is_empty, leb, length,
}
use playbook_harness.Text.{Text, codes, text_eq, within, after_prefix, ends_with}
use playbook_harness.Identity.{is_alnum, all_id_chars}

abbrev pub is_digit : ℕ → Bool
is_digit c = within b'0' b'9' c

abbrev pub is_small : ℕ → Bool
is_small c = within b'a' b'z' c

unfoldable pub all_digits : Text → Bool
all_digits [] = true
all_digits (c ∷ t) = is_digit c && all_digits t

-- `\d+`
abbrev pub is_number : Text → Bool
is_number t = not (is_empty t) && all_digits t

unfoldable pub all_name_chars : Text → Bool
all_name_chars [] = true
all_name_chars (c ∷ t) = (is_small c || is_digit c || c == b'-') && all_name_chars t

-- `[a-z][a-z0-9-]*`
unfoldable pub is_name : Text → Bool
is_name [] = false
is_name (c ∷ t) = is_small c && all_name_chars t

abbrev pub cons_first : ℕ → Option (Text × Text) → Option (Text × Text)
cons_first c none = none
cons_first c (some (a, b)) = some (c ∷ a, b)

-- The text before the first `stop`, and what follows that.
unfoldable pub split_at : ℕ → Text → Option (Text × Text)
split_at stop [] = none
split_at stop (c ∷ t) =
    let rest = split_at stop t in if c == stop then some ([], t) else cons_first c rest

abbrev pub pair_of : (Text → Bool) → (Text → Bool) → Option (Text × Text) → Bool
pair_of first second none = false
pair_of first second (some (a, b)) = first a && second b

abbrev pub after : Option Text → (Text → Bool) → Bool
after none test = false
after (some t) test = test t

-- The alternatives of `_MARKER_RE`.
unfoldable pub is_marker : Text → Bool
is_marker m =
    after (after_prefix (codes "M") m) is_number
    || after (after_prefix (codes "G") m) (λ t. pair_of is_number is_number (split_at b':' t))
    || after (after_prefix (codes "T") m) (λ t. pair_of is_number is_name (split_at b':' t))
    || after (after_prefix (codes "S:") m) is_name

unfoldable pub has_return : Text → Bool
has_return [] = false
has_return (c ∷ t) = c == b'\n' || c == b'\r' || has_return t

-- `[^\]\r\n]* UTC`, of a text without a closing bracket.
abbrev pub is_stamp : Text → Bool
is_stamp t = ends_with (codes " UTC") t && not (has_return t)

unfoldable pub all_key_chars : Text → Bool
all_key_chars [] = true
all_key_chars (c ∷ t) =
    (is_alnum c || c == b'_' || c == b'.' || c == b':' || c == b'-') && all_key_chars t

-- `_EVENT_KEY_RE.fullmatch`
unfoldable pub is_event_key : Text → Bool
is_event_key [] = false
is_event_key (c ∷ t) = is_alnum c && all_key_chars t && leb (length t) 127

-- `_SESSION_NAME_RE.fullmatch`
unfoldable pub is_session_name : Text → Bool
is_session_name [] = false
is_session_name (c ∷ t) = is_alnum c && all_id_chars t && leb (length t) 63

-- The `ValueError`s, by their message.
pub data ChatError : Type 0 where
  invalid_marker bad_timestamp empty_message invalid_session_name invalid_event_key : ChatError

abbrev pub demand : Bool → ChatError → Result ChatError (Unit {0})
demand true e = ok tt
demand false e = err e

abbrev pub is_session_name_or_none : Option Text → Bool
is_session_name_or_none none = true
is_session_name_or_none (some n) = is_session_name n

-- `_validate_entry_values`
unfoldable pub validate_entry_values :
    Text → Text → Text → Option Text → Text → Result ChatError (Unit {0})
validate_entry_values marker timestamp message session_name event_key = do
  a ← demand (is_marker marker) invalid_marker
  b ← demand (not (is_empty timestamp) && not (has_return timestamp)) bad_timestamp
  c ← demand (not (is_empty message)) empty_message
  d ← demand (is_session_name_or_none session_name) invalid_session_name
  demand (is_event_key event_key) invalid_event_key
