-- ===== src/Sessions/Bind/Rebind.antt =====
-- What a hook asks for, and the hook that fires again for a conversation that its body runs.
use playbook_harness.Base.{
  ℕ, Bool, not, ◌&&◌, ◌||◌, Option, none, some, if◌then◌else◌, Result, ok, err, ◌>>=◌, is_empty,
}
use playbook_harness.Text.{Text, text_eq}
use playbook_harness.Identity.{SessionKey}
use playbook_harness.Lanes.{
  LaneError, bad_path, incomplete_environment, provider_disagrees, Lane, Files, lane_of,
}
use playbook_harness.Lanes.Validate.{
  Check, require, validate_body_id, validate_lane, is_absolute, session_key, canonical,
}
use playbook_harness.Lanes.Transition.{finalize_lane_binding}
use playbook_harness.Sessions.{Launch, SessionRecord, Disk}
use playbook_harness.Sessions.Directory.{unlink}
use playbook_harness.Sessions.Launches.{Clock, is_timestamp, validate_launch, is_key, is_reserved}
use playbook_harness.Sessions.Records.{}
use playbook_harness.Sessions.Reserve.{read_clock}

-- `_MANAGED_ENV_FIELDS`; a variable that is not set is the empty text.
pub record Transport : Type 0 where
  pub token : Text
  pub body : Text
  pub project_root : Text
  pub declared : Text

abbrev pub is_managed : Transport → Bool
is_managed t = not (is_empty t.token) || not (is_empty t.body) || not (is_empty t.project_root)

abbrev pub is_complete : Transport → Bool
is_complete t =
    not (is_empty t.token)
    && not (is_empty t.body)
    && not (is_empty t.project_root)
    && not (is_empty t.declared)

-- What a bind is called with, checked: the conversation, the resolved project and agent directory,
-- the body, the file of the token and the time.
pub record Bind : Type 0 where
  pub key : SessionKey
  pub body : Text
  pub root : Text
  pub agent : Text
  pub token : Text
  pub path : Text
  pub now : Text
  pub at : ℕ

-- The checks before the lock is taken.
unfoldable pub bind_request :
    Clock
    → (Text → Text)
    → (Text → Text)
    → Text
    → Text
    → Option Text
    → Transport
    → Text
    → Result LaneError Bind
bind_request clock digest resolve agent provider session_id t now = do
  a ← require (is_complete t) incomplete_environment
  key ← session_key provider session_id
  declared ← canonical t.declared
  b ← require (text_eq declared key.provider) provider_disagrees
  c ← validate_body_id t.body
  d ← require (is_absolute t.project_root) bad_path
  instant ← read_clock (clock now)
  ok (record {
    key = key;
    body = t.body;
    root = resolve t.project_root;
    agent = agent;
    token = t.token;
    path = digest t.token;
    now = now;
    at = instant;
  })

abbrev pub Bound : Type 0
Bound = Result LaneError SessionRecord × Disk

abbrev pub with_lanes : Disk → Files → Disk
with_lanes disk files = record disk { lanes = files }

-- The lane is bound, then the launch is removed.
abbrev pub consume : Bind → SessionRecord → Disk → Check × Files → Bound
consume b r disk (err e, files) = (err e, with_lanes disk files)
consume b r disk (ok u, files) =
    (ok r, record disk { launches = unlink b.path disk.launches; lanes = files })

abbrev pub finalize : Clock → Bind → Files → Check × Files
finalize clock b files = finalize_lane_binding (is_timestamp clock) b.body b.key b.now files

-- A launch that is left over from a bind that was cut off.
abbrev pub rebind_launch : Clock → Bind → SessionRecord → Disk → Launch → Check → Bound
rebind_launch clock b r disk l (err e) = (err e, disk)
rebind_launch clock b r disk l (ok u) =
    if not (is_reserved l.state) && is_key l.claimed_provider l.claimed_session_id b.key
    then consume b r disk (finalize clock b disk.lanes)
    else (ok r, disk)

abbrev pub lane_bound : SessionRecord → Disk → Check × Files → Bound
lane_bound r disk (err e, files) = (err e, with_lanes disk files)
lane_bound r disk (ok u, files) = (ok r, with_lanes disk files)

abbrev pub rebind_lane : Clock → Bind → SessionRecord → Disk → Lane → Check → Bound
rebind_lane clock b r disk l (err e) = (err e, disk)
rebind_lane clock b r disk l (ok u) =
    if not (is_key l.provider l.session_id b.key)
    then lane_bound r disk (finalize clock b disk.lanes)
    else (ok r, disk)

abbrev pub rebind_lane_of : Clock → Bind → SessionRecord → Disk → Option Lane → Bound
rebind_lane_of clock b r disk none = (ok r, disk)
rebind_lane_of clock b r disk (some l) =
    rebind_lane clock b r disk l (validate_lane (is_timestamp clock) l)

-- The hook fires again for a conversation that the body runs already.
abbrev pub rebind : Clock → Bind → SessionRecord → Disk → Option Launch → Bound
rebind clock b r disk (some l) = rebind_launch clock b r disk l (validate_launch clock l)
rebind clock b r disk none = rebind_lane_of clock b r disk (lane_of b.body disk.lanes)
