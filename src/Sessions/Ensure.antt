-- ===== src/Sessions/Ensure.antt =====
-- `bind_managed_launch` and `ensure_session_record`.
use playbook_harness.Base.{
  not, Option, none, some, List, [], ◌∷◌, if◌then◌else◌, Result, ok, err, ◌>>=◌,
}
use playbook_harness.Text.{Text}
use playbook_harness.Identity.{SessionKey}
use playbook_harness.Lanes.{LaneError}
use playbook_harness.Lanes.Validate.{session_key}
use playbook_harness.Lanes.Transition.{}
use playbook_harness.Sessions.{SessionRecord, Disk}
use playbook_harness.Sessions.Directory.{}
use playbook_harness.Sessions.Launches.{Clock}
use playbook_harness.Sessions.Records.{Field, ensure_record}
use playbook_harness.Sessions.Reserve.{}
use playbook_harness.Sessions.Bind.{Transport, is_managed, Bind, bind_request, Bound, bind_locked}

abbrev pub bind_requested :
    Clock → Disk → Result LaneError Bind → Result LaneError (Option SessionRecord) × Disk
bind_requested clock disk (err e) = (err e, disk)
bind_requested clock disk (ok b) =
    let (r, left) = bind_locked clock b disk in ((do record' ← r; ok (some record')), left)

-- `bind_managed_launch`: nothing without the variables of a managed launch.
unfoldable pub bind_managed_launch :
    Clock
    → (Text → Text)
    → (Text → Text)
    → Text
    → Text
    → Option Text
    → Transport
    → Text
    → Disk
    → Result LaneError (Option SessionRecord) × Disk
bind_managed_launch clock digest resolve agent provider session_id t now disk =
    if not (is_managed t)
    then (ok none, disk)
    else bind_requested clock disk
        (bind_request clock digest resolve agent provider session_id t now)

abbrev pub ensure_fields : SessionKey → List Field → List Field → Text → Disk → Bound
ensure_fields key updates expected now disk =
    let (r, entries) = ensure_record key updates expected now disk.entries in
    (r, record disk { entries = entries })

-- After the call of `bind_managed_launch`: without updates its record is returned.
abbrev pub ensure_behind :
    SessionKey
    → List Field
    → List Field
    → Text
    → Result LaneError (Option SessionRecord) × Disk
    → Bound
ensure_behind key updates expected now (err e, disk) = (err e, disk)
ensure_behind key updates expected now (ok none, disk) = ensure_fields key updates expected now disk
ensure_behind key [] expected now (ok (some r), disk) = (ok r, disk)
ensure_behind key (f ∷ fs) expected now (ok (some r), disk) =
    ensure_fields key (f ∷ fs) expected now disk

abbrev pub ensure_keyed :
    Clock
    → (Text → Text)
    → (Text → Text)
    → Text
    → List Field
    → List Field
    → Transport
    → Text
    → Disk
    → Result LaneError SessionKey
    → Bound
ensure_keyed clock digest resolve agent updates expected t now disk (err e) = (err e, disk)
ensure_keyed clock digest resolve agent updates expected t now disk (ok key) =
    ensure_behind key updates expected now
      (bind_managed_launch clock digest resolve agent key.provider (some key.session_id) t now disk)

-- `ensure_session_record`
unfoldable pub ensure_session_record :
    Clock
    → (Text → Text)
    → (Text → Text)
    → Text
    → Text
    → Option Text
    → List Field
    → List Field
    → Transport
    → Text
    → Disk
    → Bound
ensure_session_record clock digest resolve agent provider session_id updates expected t now disk =
    ensure_keyed clock digest resolve agent updates expected t now disk
      (session_key provider session_id)
