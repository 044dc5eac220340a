-- ===== src/Sessions/Bind.antt =====
-- `bind_managed_launch` under its lock: a hook consumes the launch that its process was started
-- with. It gives its result and what it leaves on the disk, also where it raises.
mod Rebind
pub use Rebind.*
use playbook_harness.Base.{
  ℕ, Bool, true, not, ◌&&◌, ◌||◌, Option, none, some, List, [], ◌∷◌, if◌then◌else◌, Result, ok, err,
  ◌>>=◌, is_empty,
}
use playbook_harness.Text.{Text, codes, text_eq}
use playbook_harness.Identity.{SessionKey}
use playbook_harness.Lanes.{
  LaneError, bad_path, incomplete_environment, provider_disagrees, unknown_capability,
  expired_capability, binding_disagrees, claimed_differently, other_resumed, session_exists,
  target_missing, not_stopped, name_changed, Lane, Files, lane_of,
}
use playbook_harness.Lanes.Validate.{
  Check, require, validate_body_id, validate_lane, is_absolute, session_key, canonical,
}
use playbook_harness.Lanes.Transition.{finalize_lane_binding}
use playbook_harness.Sessions.{
  Operation, new, resume, claimed, Launch, running, stopped, SessionRecord, Entries, Disk,
}
use playbook_harness.Sessions.Directory.{lookup, write, unlink}
use playbook_harness.Sessions.Launches.{
  Clock, is_timestamp, validate_token, validate_launch, is_key, is_reserved, instant_before,
}
use playbook_harness.Sessions.Records.{
  Field, name, managed, state, project, workspace, resume_cwd, body_id, sandbox, last_started_at,
  stopped_at, destroyed_at, entry_of, validate_record, ensure_record, same_flag, same_state,
  same_option,
}
use playbook_harness.Sessions.Reserve.{read_clock}

abbrev pub require_resumable : Bind → Launch → Option SessionRecord → Check
require_resumable b l none = err target_missing
require_resumable b l (some r) = do
  valid ← validate_record r b.key
  a ← require (same_flag r.managed true && same_state r.state stopped) not_stopped
  require (same_option r.name l.name) name_changed

abbrev pub require_absent : Option SessionRecord → Check
require_absent none = ok tt
require_absent (some r) = err session_exists

abbrev pub require_target : Operation → Bind → Launch → Option SessionRecord → Check
require_target new b l o = require_absent o
require_target resume b l o = do
  a ← require (is_key l.expected_provider l.expected_session_id b.key) other_resumed
  require_resumable b l o

-- The checks of a launch that has not expired.
unfoldable pub admit_launch : Bind → Launch → Option SessionRecord → Check
admit_launch b l o = do
  a ←
      require
        (text_eq l.provider b.key.provider
          && text_eq l.body_id b.body
          && text_eq l.project b.root
          && text_eq l.agent_dir b.agent)
        binding_disagrees
  c ←
      require (is_reserved l.state || is_key l.claimed_provider l.claimed_session_id b.key)
        claimed_differently
  require_target l.operation b l o

abbrev pub claim : Bind → Launch → Launch
claim b l = record l {
  state = claimed;
  claimed_provider = some b.key.provider;
  claimed_session_id = some b.key.session_id;
}

abbrev pub named_field : Option Text → List Field
named_field none = []
named_field (some n) = name (some n) ∷ []

abbrev pub bound_fields : Bind → Launch → List Field
bound_fields b l =
    managed true
    ∷ state running
    ∷ project (some b.root)
    ∷ workspace (record { mode = codes "current"; path = b.root })
    ∷ resume_cwd (some l.cwd)
    ∷ body_id (some b.body)
    ∷ sandbox l.sandbox
    ∷ last_started_at (some b.now)
    ∷ stopped_at none
    ∷ destroyed_at none
    ∷ named_field l.name

abbrev pub publish_record : Clock → Bind → Disk → Result LaneError SessionRecord × Entries → Bound
publish_record clock b disk (err e, entries) = (err e, record disk { entries = entries })
publish_record clock b disk (ok r, entries) =
    consume b r (record disk { entries = entries }) (finalize clock b disk.lanes)

-- The launch is claimed, the record written, the lane bound and the launch removed. A launch that is
-- claimed already is not written again.
abbrev pub claim_launch : Clock → Bind → Disk → Launch → Check → Bound
claim_launch clock b disk l (err e) = (err e, disk)
claim_launch clock b disk l (ok u) =
    let launches' =
      if is_reserved l.state then write b.path (claim b l) disk.launches else disk.launches in
    publish_record clock b (record disk { launches = launches' })
      (ensure_record b.key (bound_fields b l) [] b.now disk.entries)

abbrev pub bind_valid : Clock → Bind → Disk → Launch → Check → Bound
bind_valid clock b disk l (err e) = (err e, disk)
bind_valid clock b disk l (ok u) =
    if instant_before (clock l.expires_at) b.at
    then (err expired_capability, record disk { launches = unlink b.path disk.launches })
    else claim_launch clock b disk l (admit_launch b l (entry_of b.key disk.entries).session_record)

abbrev pub bind_launch : Clock → Bind → Disk → Option Launch → Bound
bind_launch clock b disk none = (err unknown_capability, disk)
bind_launch clock b disk (some l) = bind_valid clock b disk l (validate_launch clock l)

-- The record of a conversation that the body runs.
abbrev pub runs_already : Bind → SessionRecord → Bool
runs_already b r =
    same_flag r.managed true
    && same_state r.state running
    && same_option r.body_id (some b.body)
    && same_option r.project (some b.root)

abbrev pub bind_present : Clock → Bind → Disk → SessionRecord → Check → Bound
bind_present clock b disk r (err e) = (err e, disk)
bind_present clock b disk r (ok u) =
    if runs_already b r
    then rebind clock b r disk (lookup b.path disk.launches)
    else bind_launch clock b disk (lookup b.path disk.launches)

abbrev pub bind_record : Clock → Bind → Disk → Option SessionRecord → Bound
bind_record clock b disk none = bind_launch clock b disk (lookup b.path disk.launches)
bind_record clock b disk (some r) = bind_present clock b disk r (validate_record r b.key)

abbrev pub bind_token : Clock → Bind → Disk → Check → Bound
bind_token clock b disk (err e) = (err e, disk)
bind_token clock b disk (ok u) =
    bind_record clock b disk (entry_of b.key disk.entries).session_record

-- `bind_managed_launch`, under the lock.
unfoldable pub bind_locked : Clock → Bind → Disk → Bound
bind_locked clock b disk = bind_token clock b disk (validate_token b.token)
