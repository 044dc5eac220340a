-- ===== src/Tests/Launches.antt =====
-- A launch that a new conversation is bound to, and instances of the theorems on launches.
use playbook_harness.Lanes.{lane_of, matches_managed_name}
use playbook_harness.Base.{ℕ, ◌≡◌, ◌≢◌, refl, Bool, none, some, [], ◌∷◌, ok, true, false, arith}
use playbook_harness.Text.{text_eq, Text, codes}
use playbook_harness.Identity.{
  all_id_chars, is_alnum, validate_native_session_id, canonical_provider, find_spec, identity_spec,
  from_values, SessionKey, key_eq,
}
use playbook_harness.Lanes.Validate.{validate_body_id, session_key}
use playbook_harness.Sessions.{Launch, new, reserved, Disk}
use playbook_harness.Sessions.Directory.{lookup}
use playbook_harness.Sessions.Launches.{
  Clock, validate_token, validate_launch, ManagedLaunchReservation, cancel_managed_launch,
  revoke_unclaimed_launches, assert_no_active_managed_resume,
}
use playbook_harness.Sessions.Records.{entry_of, body_id, ensure_record}
use playbook_harness.Sessions.Update.{EnsureOutcome, ensure_record-outcome}
use playbook_harness.Sessions.Reserve.{Request, reserve_managed_launch}
use playbook_harness.Sessions.Bind.{Bind, bind_locked}
use playbook_harness.Sessions.Reserved.{ReserveOutcome, reserve_managed_launch-outcome}
use playbook_harness.Sessions.Apart.{Apart}
use playbook_harness.Sessions.Names.{operations-Apart}
use playbook_harness.Sessions.Cancel.{CancelOutcome, cancel_managed_launch-outcome}
use playbook_harness.Sessions.Claim.{BindOutcome, bind_locked-BindOutcome}
use playbook_harness.Sessions.SingleUse.{bind_locked-single_use}
use playbook_harness.Sessions.Fresh.{IsOpen, bound_record, bind_locked-opens}
use playbook_harness.Tests.Tasks.{key_a, key_b}

abbrev noon : Clock
noon t = some 5

abbrev stamp : ℕ → Text
stamp t = codes "2026-01-01T12:00:00Z"

abbrev file_name : Text → Text
file_name token = token

abbrev token : Text
token = codes "0123456789abcdef"

abbrev launch : Launch
launch = record {
  provider = codes "claude";
  name = some (codes "one");
  body_id = codes "body";
  project = codes "/p";
  agent_dir = codes "/p/a";
  cwd = codes "/p";
  model = none;
  sandbox = false;
  operation = new;
  expected_provider = none;
  expected_session_id = none;
  created_at = codes "t";
  expires_at = codes "t";
  state = reserved;
  claimed_provider = none;
  claimed_session_id = none;
}

abbrev disk : Disk
disk = record { launches = (token, launch) ∷ []; lanes = []; entries = [] }

abbrev bind_of : SessionKey → Bind
bind_of k = record {
  key = k;
  body = codes "body";
  root = codes "/p";
  agent = codes "/p/a";
  token = token;
  path = token;
  now = codes "t";
  at = 5;
}

abbrev request : Request
request = record {
  provider = codes "claude";
  name = some (codes "two");
  project = codes "/p";
  agent_dir = codes "/p/a";
  cwd = codes "/p";
  body_id = codes "body";
  given_body = true;
  model = none;
  sandbox = false;
  operation = new;
  expected_key = none;
  token = codes "fedcba9876543210";
  ttl = 600;
}

abbrev reservation : ManagedLaunchReservation
reservation = record {
  token = token;
  body_id = codes "body";
  path = token;
  provider = codes "claude";
  name = some (codes "one");
}

key-canonical : session_key (codes "claude") (some (codes "a1")) ≡ ok key_a
unfolding text_eq from_values identity_spec find_spec canonical_provider validate_native_session_id
key-canonical = refl

launch-valid : validate_launch noon launch ≡ ok tt
unfolding text_eq from_values identity_spec find_spec canonical_provider validate_native_session_id
    validate_launch matches_managed_name
launch-valid = refl

token-safe : validate_token token ≡ ok tt
token-safe = refl

body-safe : validate_body_id (codes "body") ≡ ok tt
unfolding matches_managed_name is_alnum all_id_chars
body-safe = refl

launch-found : lookup token disk.launches ≡ some launch
unfolding lookup text_eq
launch-found = refl

no_directory : lookup (codes "claude-a1") disk.entries ≡ none
unfolding lookup
no_directory = refl

launch-IsOpen : IsOpen noon (bind_of key_a) disk launch
unfolding lane_of
launch-IsOpen = record {
  token = token-safe;
  key = key-canonical;
  started = refl;
  holds = launch-found;
  valid = launch-valid;
  safe_body = body-safe;
  in_time = refl;
  same_provider = refl;
  same_body = refl;
  same_project = refl;
  same_agent = refl;
  operation = refl;
  unclaimed = refl;
  no_entry = no_directory;
  no_lane = refl;
}

bind_locked-opens_example :
    ((bind_locked noon (bind_of key_a) disk).0
      ≡ ok (bound_record (bind_of key_a) launch (codes "t")))
    × (lookup token (bind_locked noon (bind_of key_a) disk).1.launches ≡ none)
    × ((entry_of key_a (bind_locked noon (bind_of key_a) disk).1.entries).session_record
        ≡ some (bound_record (bind_of key_a) launch (codes "t")))
    × ((bind_locked noon (bind_of key_a) disk).1.lanes ≡ disk.lanes)
bind_locked-opens_example = bind_locked-opens noon (bind_of key_a) disk launch launch-IsOpen

bind_locked-BindOutcome_example :
    BindOutcome noon (bind_of key_a) disk (bind_locked noon (bind_of key_a) disk)
bind_locked-BindOutcome_example = bind_locked-BindOutcome noon (bind_of key_a) disk

-- The directory of the conversation is there afterwards.
record-written : (bind_locked noon (bind_of key_a) disk).1.entries ≢ disk.entries
record-written e =
    let k : (entry_of key_a (bind_locked noon (bind_of key_a) disk).1.entries).session_record
        ≡ (entry_of key_a disk.entries).session_record =
      rw e refl in
    ground (arith, bind_locked-opens_example.2, no_directory, k)

keys-apart : key_eq key_a key_b ≡ false
unfolding key_eq text_eq
keys-apart = refl

bind_locked-single_use_example :
    (bind_locked noon (bind_of key_b) (bind_locked noon (bind_of key_a) disk).1).1.entries
    ≡ (bind_locked noon (bind_of key_a) disk).1.entries
bind_locked-single_use_example =
    bind_locked-single_use noon (bind_of key_a) (bind_of key_b) disk refl keys-apart record-written

reserve_managed_launch-outcome_example : ReserveOutcome noon request disk.launches (
    reserve_managed_launch noon stamp file_name request
      (codes "t")
      (codes "t")
      disk.entries
      disk.launches)
reserve_managed_launch-outcome_example =
    reserve_managed_launch-outcome noon stamp file_name request (codes "t") (codes "t") disk.entries
      disk.launches

operations-Apart_example :
    ((stamp' : ℕ → Text) (q : Request) (now later : Text)
      → Apart
          (reserve_managed_launch noon stamp' file_name q now later disk.entries disk.launches).1)
    × ((b : Bind) → Apart (bind_locked noon b disk).1.launches)
    × ((r : ManagedLaunchReservation) (stopped : Bool)
        → Apart (cancel_managed_launch noon file_name r stopped disk.launches).1)
    × ((body : Text) → Apart (revoke_unclaimed_launches noon body disk.launches).1)
    × ((key : SessionKey) (now : Text)
        → Apart (assert_no_active_managed_resume noon key now disk.launches).1)
operations-Apart_example = operations-Apart noon file_name disk (tt, tt)

cancel_managed_launch-outcome_example :
    CancelOutcome reservation false disk.launches
      (cancel_managed_launch noon file_name reservation false disk.launches)
cancel_managed_launch-outcome_example =
    cancel_managed_launch-outcome noon file_name reservation false disk.launches

ensure_record-outcome_example :
    EnsureOutcome key_a
      (body_id (some (codes "body")) ∷ [])
      []
      (codes "t")
      []
      (ensure_record key_a (body_id (some (codes "body")) ∷ []) [] (codes "t") [])
ensure_record-outcome_example =
    ensure_record-outcome key_a (body_id (some (codes "body")) ∷ []) [] (codes "t") []
