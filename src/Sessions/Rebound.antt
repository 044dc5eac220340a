-- ===== src/Sessions/Rebound.antt =====
-- What a hook that fires again does to the session records.
use playbook_harness.Base.{◌≡◌, refl, inl, inr, not, ◌&&◌, Option, none, some, ok, err, Bool-cases}
use playbook_harness.Text.{}
use playbook_harness.Identity.{}
use playbook_harness.Lanes.{Files, Lane, lane_of}
use playbook_harness.Lanes.Validate.{Check, validate_lane}
use playbook_harness.Sessions.{Launch, SessionRecord, Disk}
use playbook_harness.Sessions.Directory.{}
use playbook_harness.Sessions.Launches.{Clock, is_timestamp, validate_launch, is_key, is_reserved}
use playbook_harness.Sessions.Records.{}
use playbook_harness.Sessions.Bind.{
  Bind, consume, finalize, rebind, rebind_launch, rebind_lane, rebind_lane_of, lane_bound,
}
use playbook_harness.Sessions.Admission.{}

pub consume-entries :
    (b : Bind) (r : SessionRecord) (disk : Disk) (c : Check × Files)
    → (consume b r disk c).1.entries ≡ disk.entries
consume-entries b r disk (err e, files) = refl
consume-entries b r disk (ok u, files) = refl

lane_bound-entries :
    (r : SessionRecord) (disk : Disk) (c : Check × Files)
    → (lane_bound r disk c).1.entries ≡ disk.entries
lane_bound-entries r disk (err e, files) = refl
lane_bound-entries r disk (ok u, files) = refl

rebind_launch-entries :
    (clock : Clock) (b : Bind) (r : SessionRecord) (disk : Disk) (l : Launch) (c : Check)
    → (rebind_launch clock b r disk l c).1.entries ≡ disk.entries
rebind_launch-entries clock b r disk l (err e) = refl
rebind_launch-entries clock b r disk l (ok u) =
    elim (Bool-cases
      (not (is_reserved l.state) && is_key l.claimed_provider l.claimed_session_id b.key)) [
        | inl e ↦ rw e (consume-entries b r disk (finalize clock b disk.lanes))
        | inr e ↦ rw e refl
      ]

rebind_lane-entries :
    (clock : Clock) (b : Bind) (r : SessionRecord) (disk : Disk) (l : Lane) (c : Check)
    → (rebind_lane clock b r disk l c).1.entries ≡ disk.entries
rebind_lane-entries clock b r disk l (err e) = refl
rebind_lane-entries clock b r disk l (ok u) =
    elim (Bool-cases (is_key l.provider l.session_id b.key)) [
      | inl e ↦ rw e refl
      | inr e ↦ rw e (lane_bound-entries r disk (finalize clock b disk.lanes))
    ]

rebind_lane_of-entries :
    (clock : Clock) (b : Bind) (r : SessionRecord) (disk : Disk) (o : Option Lane)
    → (rebind_lane_of clock b r disk o).1.entries ≡ disk.entries
rebind_lane_of-entries clock b r disk none = refl
rebind_lane_of-entries clock b r disk (some l) =
    rebind_lane-entries clock b r disk l (validate_lane (is_timestamp clock) l)

-- A hook that fires again writes no record.
pub rebind-entries :
    (clock : Clock) (b : Bind) (r : SessionRecord) (disk : Disk) (o : Option Launch)
    → (rebind clock b r disk o).1.entries ≡ disk.entries
rebind-entries clock b r disk none =
    rebind_lane_of-entries clock b r disk (lane_of b.body disk.lanes)
rebind-entries clock b r disk (some l) =
    rebind_launch-entries clock b r disk l (validate_launch clock l)
