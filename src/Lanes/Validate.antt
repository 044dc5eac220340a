-- ===== src/Lanes/Validate.antt =====
-- session_state.py: the checks of names, body ids and lanes.
use playbook_harness.Base.{
  ℕ, Bool, true, false, not, ◌&&◌, Option, none, some, [], ◌∷◌, ◌==◌, Result, ok, err, ◌>>=◌, leb,
  map_err,
}
use playbook_harness.Text.{Text, codes, text_eq}
use playbook_harness.Identity.{SessionKey, from_values}
use playbook_harness.Lanes.{
  LaneError, bad_timestamp, bad_name, bad_body_id, bad_path, bad_provider, bad_foreground,
  partial_identity, identity, Lane, matches_managed_name,
}

abbrev pub Check : Type 0
Check = Result LaneError (Unit {0})

abbrev pub require : Bool → LaneError → Check
require true e = ok tt
require false e = err e

-- `_validate_managed_name`
abbrev pub validate_managed_name : Option Text → Check
validate_managed_name none = ok tt
validate_managed_name (some n) = require (matches_managed_name n) bad_name

-- `_validate_body_id`
abbrev pub validate_body_id : Text → Check
validate_body_id b = require (matches_managed_name b) bad_body_id

-- `Path(value).is_absolute()`
abbrev pub is_absolute : Text → Bool
is_absolute [] = false
is_absolute (c ∷ t) = c == b'/'

-- `SessionKey.from_values`, whose exception passes through.
abbrev pub session_key : Text → Option Text → Result LaneError SessionKey
session_key provider id = map_err identity (from_values provider id)

-- `SessionKey.from_values(provider, "validation-id").provider`
abbrev pub canonical : Text → Result LaneError Text
canonical provider = do key ← session_key provider (some (codes "validation-id")); ok key.provider

abbrev pub validate_launch_provider : Option Text → Check
validate_launch_provider none = ok tt
validate_launch_provider (some p) = do c ← canonical p; require (text_eq p c) bad_provider

abbrev pub validate_foreground : Option ℕ → Check
validate_foreground none = ok tt
validate_foreground (some g) = require (not (leb g 1)) bad_foreground

abbrev pub validate_identity : Option Text → Option Text → Check
validate_identity none none = ok tt
validate_identity (some p) (some s) = do key ← session_key p (some s); ok tt
validate_identity none (some s) = err partial_identity
validate_identity (some p) none = err partial_identity

abbrev pub validate_bound : (Text → Bool) → Option Text → Check
validate_bound is_timestamp none = ok tt
validate_bound is_timestamp (some t) = require (is_timestamp t) bad_timestamp

-- `_validate_lane`
unfoldable pub validate_lane : (Text → Bool) → Lane → Check
validate_lane is_timestamp l = do
  a ← validate_managed_name l.name
  b ← validate_body_id l.body_id
  c ← require (is_absolute l.project && is_absolute l.cwd) bad_path
  d ← validate_launch_provider l.launch_provider
  e ← validate_foreground l.foreground_process_group
  f ← validate_identity l.provider l.session_id
  g ← require (is_timestamp l.created_at) bad_timestamp
  h ← require (is_timestamp l.updated_at) bad_timestamp
  validate_bound is_timestamp l.last_bound_at
