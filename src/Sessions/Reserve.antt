-- ===== src/Sessions/Reserve.antt =====
-- `reserve_managed_launch`. Paths are resolved; the token and the body id are the given or the
-- generated ones, and `given_body` says that the body id was given. A time to live is counted in
-- the unit of instants. It gives its result and the launches that it leaves.
use playbook_harness.Base.{
  ℕ, ◌+◌, Bool, true, false, not, ◌&&◌, ◌||◌, Option, none, some, List, [], ◌∷◌, ◌==◌,
  if◌then◌else◌, Result, ok, err, ◌>>=◌,
}
use playbook_harness.Text.{Text, text_eq}
use playbook_harness.Identity.{SessionKey, key_eq}
use playbook_harness.Lanes.{
  LaneError, bad_timestamp, bad_ttl, bad_operation, other_provider, token_reserved, target_missing,
  not_stopped, name_changed, name_in_use, name_reserved,
}
use playbook_harness.Lanes.Validate.{
  Check, require, validate_managed_name, validate_body_id, canonical,
}
use playbook_harness.Lanes.Create.{is_named}
use playbook_harness.Sessions.{
  Operation, new, resume, reserved, Launch, Launches, stopped, destroyed, SessionRecord, Entries,
}
use playbook_harness.Sessions.Directory.{lookup, write}
use playbook_harness.Sessions.Launches.{
  Clock, validate_token, validate_launch, remove_expired, revoke, no_active_resume,
  ManagedLaunchReservation,
}
use playbook_harness.Sessions.Records.{
  entry_of, validate_record, session_records, same_option, same_flag, same_state, read_record,
}

pub record Request : Type 0 where
  pub provider : Text
  pub name : Option Text
  pub project : Text
  pub agent_dir : Text
  pub cwd : Text
  pub body_id : Text
  pub given_body : Bool
  pub model : Option Text
  pub sandbox : Bool
  pub operation : Operation
  pub expected_key : Option SessionKey
  pub token : Text
  pub ttl : ℕ

-- What is checked before the lock is taken: the launch that is asked for.
pub record Asked : Type 0 where
  pub provider : Text
  pub created : ℕ

abbrev pub read_clock : Option ℕ → Result LaneError ℕ
read_clock none = err bad_timestamp
read_clock (some t) = ok t

-- The operation expects a conversation, of the same provider, or none.
abbrev pub validate_operation : Operation → Option SessionKey → Text → Check
validate_operation resume none provider = err bad_operation
validate_operation new (some key) provider = err bad_operation
validate_operation new none provider = ok tt
validate_operation resume (some key) provider =
    require (text_eq key.provider provider) other_provider

unfoldable pub ask : Clock → Request → Text → Result LaneError Asked
ask clock q now = do
  provider ← canonical q.provider
  a ← validate_managed_name q.name
  b ← validate_body_id q.body_id
  c ← require (not (q.ttl == 0)) bad_ttl
  created ← read_clock (clock now)
  d ← validate_operation q.operation q.expected_key provider
  ok (record { provider = provider; created = created })

abbrev pub expected_provider : Option SessionKey → Option Text
expected_provider none = none
expected_provider (some key) = some key.provider

abbrev pub expected_session_id : Option SessionKey → Option Text
expected_session_id none = none
expected_session_id (some key) = some key.session_id

abbrev pub new_launch : Request → Text → Text → Text → Launch
new_launch q provider created expires = record {
  provider = provider;
  name = q.name;
  body_id = q.body_id;
  project = q.project;
  agent_dir = q.agent_dir;
  cwd = q.cwd;
  model = q.model;
  sandbox = q.sandbox;
  operation = q.operation;
  expected_provider = expected_provider q.expected_key;
  expected_session_id = expected_session_id q.expected_key;
  created_at = created;
  expires_at = expires;
  state = reserved;
  claimed_provider = none;
  claimed_session_id = none;
}

abbrev pub require_stopped : Option Text → SessionKey → Option SessionRecord → Check
require_stopped name key none = err target_missing
require_stopped name key (some r) = do
  valid ← validate_record r key
  a ← require (same_flag r.managed true && same_state r.state stopped) not_stopped
  require (same_option r.name name) name_changed

abbrev pub is_resumed : Option SessionKey → Result LaneError SessionKey → Bool
is_resumed none k = false
is_resumed (some expected) (err e) = false
is_resumed (some expected) (ok key) = key_eq expected key

-- No listed record has the name, but for a destroyed one and the one that is resumed.
unfoldable pub free_among_records : Text → Option SessionKey → List SessionRecord → Check
free_among_records name expected [] = ok tt
free_among_records name expected (r ∷ rs) = do
  a ←
      require
        (not (is_named r.name name)
          || same_state r.state destroyed
          || is_resumed expected (read_record r))
        name_in_use
  free_among_records name expected rs

unfoldable pub free_among_launches : Clock → Text → Launches → Check
free_among_launches clock name [] = ok tt
free_among_launches clock name ((k, l) ∷ files) = do
  valid ← validate_launch clock l
  a ← require (not (is_named l.name name)) name_reserved
  free_among_launches clock name files

abbrev pub free_name : Clock → Option Text → Option SessionKey → Entries → Launches → Check
free_name clock none expected entries files = ok tt
free_name clock (some name) expected entries files = do
  a ← free_among_records name expected (session_records entries)
  free_among_launches clock name files

abbrev pub has_launch : Option Launch → Bool
has_launch none = false
has_launch (some l) = true

-- The launch that is written, when its name is free.
unfoldable pub named_launch :
    Clock → Request → Launch → Entries → Launches → Result LaneError Launch
named_launch clock q launch entries files = do
  a ← free_name clock q.name q.expected_key entries files
  b ← validate_launch clock launch
  ok launch

abbrev pub Reserved : Type 0
Reserved = Result LaneError ManagedLaunchReservation × Launches

abbrev pub put_launch : Text → Request → Launches → Result LaneError Launch → Reserved
put_launch path q files (err e) = (err e, files)
put_launch path q files (ok l) = (
  ok (record {
    token = q.token;
    body_id = q.body_id;
    path = path;
    provider = l.provider;
    name = q.name;
  }),
  write path l files,
)

-- `assert_no_active_managed_resume` of the conversation, and what follows it.
abbrev pub reserve_inactive :
    Clock → Text → Request → Launch → SessionKey → Entries → Launches → Option ℕ → Reserved
reserve_inactive clock path q launch key entries files none = (err bad_timestamp, files)
reserve_inactive clock path q launch key entries files (some t) =
    let left = remove_expired clock t files in
    put_launch path q left
      (do inactive ← no_active_resume clock key left; named_launch clock q launch entries left)

abbrev pub reserve_target :
    Clock → Text → Request → Launch → SessionKey → Entries → Launches → Text → Check → Reserved
reserve_target clock path q launch key entries files later (err e) = (err e, files)
reserve_target clock path q launch key entries files later (ok u) =
    reserve_inactive clock path q launch key entries files (clock later)

-- The branch of `operation == "resume"`; a resume without a conversation was refused before.
abbrev pub reserve_operation :
    Clock → Text → Request → Launch → Option SessionKey → Entries → Launches → Text → Reserved
reserve_operation clock path q launch none entries files later =
    put_launch path q files (named_launch clock q launch entries files)
reserve_operation clock path q launch (some key) entries files later =
    reserve_target clock path q launch key entries files later
      (require_stopped q.name key (entry_of key entries).session_record)

abbrev pub reserve_fresh :
    Clock → Text → Request → Launch → Entries → Launches → Text → Check → Reserved
reserve_fresh clock path q launch entries files later (err e) = (err e, files)
reserve_fresh clock path q launch entries files later (ok u) =
    reserve_operation clock path q launch q.expected_key entries files later

-- Expired launches are removed, and those of the body that is given.
abbrev pub cleared : Clock → Request → ℕ → Launches → Launches
cleared clock q t files =
    let left = remove_expired clock t files in
    if q.given_body then (revoke clock q.body_id left).1 else left

-- Under the lock.
abbrev pub reserve_locked :
    Clock
    → (ℕ → Text)
    → Text
    → Request
    → Text
    → Text
    → Entries
    → Launches
    → Result LaneError Asked
    → Reserved
reserve_locked clock stamp path q now later entries files (err e) = (err e, files)
reserve_locked clock stamp path q now later entries files (ok a) =
    let left = cleared clock q a.created files in
    reserve_fresh clock path q (new_launch q a.provider now (stamp (a.created + q.ttl))) entries
      left later
      (do
        safe ← validate_token q.token
        require (not (has_launch (lookup path left))) token_reserved)

-- `now` and `later` are the answers of the clock at the two calls of it.
unfoldable pub reserve_managed_launch :
    Clock → (ℕ → Text) → (Text → Text) → Request → Text → Text → Entries → Launches → Reserved
reserve_managed_launch clock stamp digest q now later entries files =
    reserve_locked clock stamp (digest q.token) q now later entries files (ask clock q now)
