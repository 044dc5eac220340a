-- ===== src/Sessions/Launches.antt =====
-- The check of a launch, the removal of launches and the cancellation of one.
use playbook_harness.Base.{
  ℕ, suc, Bool, true, false, not, ◌&&◌, ◌||◌, Option, none, some, [], ◌∷◌, ◌==◌, if◌then◌else◌,
  Result, ok, err, ◌>>=◌, leb, ltb, length,
}
use playbook_harness.Text.{Text, text_eq}
use playbook_harness.Identity.{SessionKey}
use playbook_harness.Lanes.{
  LaneError, bad_timestamp, bad_provider, bad_path, bad_launch, bad_token, path_disagrees,
  body_disagrees, resume_in_progress,
}
use playbook_harness.Lanes.Validate.{
  Check, require, validate_managed_name, validate_body_id, is_absolute, session_key, canonical,
}
use playbook_harness.Lanes.Transition.{is_text, is_unbound}
use playbook_harness.Sessions.{
  Operation, new, resume, LaunchState, reserved, claimed, Launch, Launches,
}
use playbook_harness.Sessions.Directory.{lookup, unlink}

-- When `_parse_timestamp` accepts, the instant.
abbrev pub Clock : Type 0
Clock = Text → Option ℕ

abbrev pub is_instant : Option ℕ → Bool
is_instant none = false
is_instant (some t) = true

abbrev pub is_timestamp : Clock → Text → Bool
is_timestamp clock t = is_instant (clock t)

abbrev pub contains_null : Text → Bool
contains_null [] = false
contains_null (c ∷ t) = c == 0 || contains_null t

-- The test of `_launch_path`.
abbrev pub validate_token : Text → Check
validate_token token = require (leb 16 (length token) && not (contains_null token)) bad_token

-- `SessionKey.from_values`, of members that may be null.
abbrev pub key_of_members : Option Text → Option Text → Result LaneError SessionKey
key_of_members none id = err bad_provider
key_of_members (some p) id = session_key p id

abbrev pub valid_key : Result LaneError SessionKey → Check
valid_key (err e) = err e
valid_key (ok key) = ok tt

abbrev pub validate_expected : Operation → Option Text → Option Text → Check
validate_expected new provider id = require (is_unbound provider id) bad_launch
validate_expected resume provider id = valid_key (key_of_members provider id)

abbrev pub validate_claimed : LaunchState → Option Text → Option Text → Check
validate_claimed reserved provider id = require (is_unbound provider id) bad_launch
validate_claimed claimed provider id = valid_key (key_of_members provider id)

-- `_validate_launch`
unfoldable pub validate_launch : Clock → Launch → Check
validate_launch clock l = do
  p ← canonical l.provider
  a ← require (text_eq p l.provider) bad_provider
  b ← validate_managed_name l.name
  c ← validate_body_id l.body_id
  d ← require (is_absolute l.project && is_absolute l.agent_dir && is_absolute l.cwd) bad_path
  e ← validate_expected l.operation l.expected_provider l.expected_session_id
  f ← validate_claimed l.state l.claimed_provider l.claimed_session_id
  g ← require (is_timestamp clock l.created_at) bad_timestamp
  require (is_timestamp clock l.expires_at) bad_timestamp

abbrev pub passes : Check → Bool
passes (ok u) = true
passes (err e) = false

abbrev pub instant_before : Option ℕ → ℕ → Bool
instant_before none t = false
instant_before (some e) t = ltb e t

-- A launch that can be read and has expired.
abbrev pub is_expired : Clock → ℕ → Launch → Bool
is_expired clock t l = passes (validate_launch clock l) && instant_before (clock l.expires_at) t

-- `_remove_expired_launches`
unfoldable pub remove_expired : Clock → ℕ → Launches → Launches
remove_expired clock t [] = []
remove_expired clock t ((k, l) ∷ files) =
    let rest = remove_expired clock t files in if is_expired clock t l then rest else (k, l) ∷ rest

abbrev pub is_reserved : LaunchState → Bool
is_reserved reserved = true
is_reserved claimed = false

-- A launch of a body that no provider has claimed.
abbrev pub is_revoked : Clock → Text → Launch → Bool
is_revoked clock body l =
    passes (validate_launch clock l) && (text_eq l.body_id body && is_reserved l.state)

-- `_revoke_unclaimed_launches_locked`: the number removed, and the files left.
unfoldable pub revoke : Clock → Text → Launches → ℕ × Launches
revoke clock body [] = (0, [])
revoke clock body ((k, l) ∷ files) =
    let (removed, rest) = revoke clock body files in
    if is_revoked clock body l then (suc removed, rest) else (removed, (k, l) ∷ rest)

abbrev revoke_safe : Clock → Text → Launches → Check → Result LaneError ℕ × Launches
revoke_safe clock body files (err e) = (err e, files)
revoke_safe clock body files (ok u) = let (n, rest) = revoke clock body files in (ok n, rest)

-- `revoke_unclaimed_launches`
unfoldable pub revoke_unclaimed_launches : Clock → Text → Launches → Result LaneError ℕ × Launches
revoke_unclaimed_launches clock body files = revoke_safe clock body files (validate_body_id body)

abbrev pub is_key : Option Text → Option Text → SessionKey → Bool
is_key provider id key = is_text provider key.provider && is_text id key.session_id

abbrev pub is_resume : Operation → Bool
is_resume resume = true
is_resume new = false

-- The loop of `assert_no_active_managed_resume`.
unfoldable pub no_active_resume : Clock → SessionKey → Launches → Check
no_active_resume clock key [] = ok tt
no_active_resume clock key ((k, l) ∷ files) = do
  valid ← validate_launch clock l
  a ←
      require (not (is_resume l.operation && is_key l.expected_provider l.expected_session_id key))
        resume_in_progress
  no_active_resume clock key files

-- The call of it, at an instant if the clock gives one.
abbrev pub assert_inactive : Clock → SessionKey → Launches → Option ℕ → Check × Launches
assert_inactive clock key files none = (err bad_timestamp, files)
assert_inactive clock key files (some t) =
    let left = remove_expired clock t files in (no_active_resume clock key left, left)

-- `assert_no_active_managed_resume`
unfoldable pub assert_no_active_managed_resume :
    Clock → SessionKey → Text → Launches → Check × Launches
assert_no_active_managed_resume clock key now files = assert_inactive clock key files (clock now)

-- `ManagedLaunchReservation`; `path` is the name of the file.
pub record ManagedLaunchReservation : Type 0 where
  pub token : Text
  pub body_id : Text
  pub path : Text
  pub provider : Text
  pub name : Option Text

-- Whether the launch may be released.
abbrev pub releasable : Bool → LaunchState → Bool
releasable body_stopped reserved = true
releasable body_stopped claimed = body_stopped

abbrev pub release :
    Text → Launch → Text → Bool → Launches → Check → Result LaneError Bool × Launches
release path l body body_stopped files (err e) = (err e, files)
release path l body body_stopped files (ok u) =
    if not (text_eq l.body_id body)
    then (err body_disagrees, files)
    else if releasable body_stopped l.state
    then (ok true, unlink path files)
    else (ok false, files)

abbrev pub cancel_found :
    Clock → Text → Text → Bool → Launches → Option Launch → Result LaneError Bool × Launches
cancel_found clock path body body_stopped files none = (ok false, files)
cancel_found clock path body body_stopped files (some l) =
    release path l body body_stopped files (validate_launch clock l)

abbrev pub cancel_checked :
    Clock → ManagedLaunchReservation → Bool → Launches → Check → Result LaneError Bool × Launches
cancel_checked clock r body_stopped files (err e) = (err e, files)
cancel_checked clock r body_stopped files (ok u) =
    cancel_found clock r.path r.body_id body_stopped files (lookup r.path files)

-- `cancel_managed_launch`
unfoldable pub cancel_managed_launch :
    Clock
    → (Text → Text)
    → ManagedLaunchReservation
    → Bool
    → Launches
    → Result LaneError Bool × Launches
cancel_managed_launch clock digest r body_stopped files =
    cancel_checked clock r body_stopped files
      (do a ← validate_token r.token; require (text_eq (digest r.token) r.path) path_disagrees)
