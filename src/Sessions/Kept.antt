-- ===== src/Sessions/Kept.antt =====
-- What a bind does to the launches: it claims one or removes one.
use playbook_harness.Base.{
  ◌≡◌, refl, inl, inr, not, ◌&&◌, Option, none, some, Result, ok, err, [], Bool-cases,
  if◌then◌else◌,
}
use playbook_harness.Text.{}
use playbook_harness.Identity.{}
use playbook_harness.Lanes.{LaneError, Lane, Files, lane_of}
use playbook_harness.Lanes.Validate.{Check, validate_lane}
use playbook_harness.Sessions.{Launch, Launches, SessionRecord, Entries, Disk}
use playbook_harness.Sessions.Directory.{lookup, write, unlink}
use playbook_harness.Sessions.Launches.{
  Clock, is_timestamp, validate_token, validate_launch, is_key, is_reserved, instant_before,
}
use playbook_harness.Sessions.Records.{entry_of, validate_record, ensure_record}
use playbook_harness.Sessions.Reserve.{}
use playbook_harness.Sessions.Bind.{
  Bind, consume, finalize, rebind, rebind_launch, rebind_lane, rebind_lane_of, lane_bound,
  admit_launch, claim, bound_fields, publish_record, claim_launch, bind_valid, bind_launch,
  runs_already, bind_present, bind_record, bind_token, bind_locked,
}
use playbook_harness.Sessions.Sublist.{}
use playbook_harness.Sessions.Apart.{}
use playbook_harness.Sessions.Reserved.{}

-- A property of the launches that is kept when a launch is claimed or removed is kept by a bind.
module _ (clock : Clock) (b : Bind) (P : Launches → Type 0)
    (claimed : (l : Launch) (files : Launches)
      → lookup b.path files ≡ some l
      → P files
      → P (write b.path (claim b l) files))
    (removed : (files : Launches) → P files → P (unlink b.path files)) where
  consume-kept :
      (r : SessionRecord) (disk : Disk) (c : Check × Files)
      → P disk.launches
      → P (consume b r disk c).1.launches
  consume-kept r disk (err e, files) p = p
  consume-kept r disk (ok u, files) p = removed disk.launches p

  rebind_launch-kept :
      (r : SessionRecord) (disk : Disk) (l : Launch) (c : Check)
      → P disk.launches
      → P (rebind_launch clock b r disk l c).1.launches
  rebind_launch-kept r disk l (err e) p = p
  rebind_launch-kept r disk l (ok u) p =
      elim (Bool-cases
        (not (is_reserved l.state) && is_key l.claimed_provider l.claimed_session_id b.key)) [
          | inl e ↦ rw e (consume-kept r disk (finalize clock b disk.lanes) p)
          | inr e ↦ rw e p
        ]

  lane_bound-kept :
      (r : SessionRecord) (disk : Disk) (c : Check × Files)
      → P disk.launches
      → P (lane_bound r disk c).1.launches
  lane_bound-kept r disk (err e, files) p = p
  lane_bound-kept r disk (ok u, files) p = p

  rebind_lane-kept :
      (r : SessionRecord) (disk : Disk) (l : Lane) (c : Check)
      → P disk.launches
      → P (rebind_lane clock b r disk l c).1.launches
  rebind_lane-kept r disk l (err e) p = p
  rebind_lane-kept r disk l (ok u) p = elim (Bool-cases (is_key l.provider l.session_id b.key)) [
    | inl e ↦ rw e p
    | inr e ↦ rw e (lane_bound-kept r disk (finalize clock b disk.lanes) p)
  ]

  rebind_lane_of-kept :
      (r : SessionRecord) (disk : Disk) (o : Option Lane)
      → P disk.launches
      → P (rebind_lane_of clock b r disk o).1.launches
  rebind_lane_of-kept r disk none p = p
  rebind_lane_of-kept r disk (some l) p =
      rebind_lane-kept r disk l (validate_lane (is_timestamp clock) l) p

  rebind-kept :
      (r : SessionRecord) (disk : Disk) (o : Option Launch)
      → P disk.launches
      → P (rebind clock b r disk o).1.launches
  rebind-kept r disk (some l) p = rebind_launch-kept r disk l (validate_launch clock l) p
  rebind-kept r disk none p = rebind_lane_of-kept r disk (lane_of b.body disk.lanes) p

  publish_record-kept :
      (disk : Disk) (q : Result LaneError SessionRecord × Entries)
      → P disk.launches
      → P (publish_record clock b disk q).1.launches
  publish_record-kept disk (err e, entries) p = p
  publish_record-kept disk (ok r, entries) p =
      consume-kept r (record disk { entries = entries }) (finalize clock b disk.lanes) p

  claim_launch-kept :
      (disk : Disk) (l : Launch) (c : Check)
      → lookup b.path disk.launches ≡ some l
      → P disk.launches
      → P (claim_launch clock b disk l c).1.launches
  claim_launch-kept disk l (err e) h p = p
  claim_launch-kept disk l (ok u) h p =
      publish_record-kept
        (record disk {
          launches =
              if is_reserved l.state then write b.path (claim b l) disk.launches else disk.launches;
        })
        (ensure_record b.key (bound_fields b l) [] b.now disk.entries)
        (elim (Bool-cases (is_reserved l.state)) [
          | inl e ↦ rw e (claimed l disk.launches h p)
          | inr e ↦ rw e p
        ])

  bind_valid-kept :
      (disk : Disk) (l : Launch) (c : Check)
      → lookup b.path disk.launches ≡ some l
      → P disk.launches
      → P (bind_valid clock b disk l c).1.launches
  bind_valid-kept disk l (err e) h p = p
  bind_valid-kept disk l (ok u) h p = elim (Bool-cases (instant_before (clock l.expires_at) b.at)) [
    | inl e ↦ rw e (removed disk.launches p)
    | inr e ↦ rw e (
        claim_launch-kept disk l (admit_launch b l (entry_of b.key disk.entries).session_record) h
          p)
  ]

  bind_launch-kept :
      (disk : Disk) (o : Option Launch)
      → lookup b.path disk.launches ≡ o
      → P disk.launches
      → P (bind_launch clock b disk o).1.launches
  bind_launch-kept disk none h p = p
  bind_launch-kept disk (some l) h p = bind_valid-kept disk l (validate_launch clock l) h p

  bind_present-kept :
      (disk : Disk) (r : SessionRecord) (c : Check)
      → P disk.launches
      → P (bind_present clock b disk r c).1.launches
  bind_present-kept disk r (err e) p = p
  bind_present-kept disk r (ok u) p = elim (Bool-cases (runs_already b r)) [
    | inl e ↦ rw e (rebind-kept r disk (lookup b.path disk.launches) p)
    | inr e ↦ rw e (bind_launch-kept disk (lookup b.path disk.launches) refl p)
  ]

  bind_record-kept :
      (disk : Disk) (o : Option SessionRecord)
      → P disk.launches
      → P (bind_record clock b disk o).1.launches
  bind_record-kept disk none p = bind_launch-kept disk (lookup b.path disk.launches) refl p
  bind_record-kept disk (some r) p = bind_present-kept disk r (validate_record r b.key) p

  bind_token-kept :
      (disk : Disk) (c : Check) → P disk.launches → P (bind_token clock b disk c).1.launches
  bind_token-kept disk (err e) p = p
  bind_token-kept disk (ok u) p =
      bind_record-kept disk (entry_of b.key disk.entries).session_record p

  pub bind_locked-kept : (disk : Disk) → P disk.launches → P (bind_locked clock b disk).1.launches
  unfolding bind_locked
  bind_locked-kept disk p = bind_token-kept disk (validate_token b.token) p
