-- ===== src/Sessions/Claim.antt =====
-- What a bind writes, and for whom.
use playbook_harness.Base.{
  ◌≡◌, refl, ap, ◌∙◌, ◌⊎◌, inl, inr, true, false, Option, none, some, List, [], arith,
  if◌then◌else◌, Result, ok, err, Bool-cases,
}
use playbook_harness.Text.{Text, codes, text_eq, text_eq_refl}
use playbook_harness.Identity.{SessionKey}
use playbook_harness.Lanes.{LaneError, Files}
use playbook_harness.Lanes.Validate.{Check}
use playbook_harness.Sessions.{Launch, Launches, SessionRecord, SessionEntry, Entries, Disk}
use playbook_harness.Sessions.Directory.{lookup, write, lookup-write, lookup-unlink}
use playbook_harness.Sessions.Launches.{
  Clock, validate_launch, validate_token, is_key, is_reserved, instant_before,
}
use playbook_harness.Sessions.Records.{
  Field, directory_name, entry_of, validate_record, ensure_record, put_record, enriched, opened_by,
  empty_entry, probed, merge, blank_record,
}
use playbook_harness.Sessions.Bind.{
  Bind, Bound, consume, finalize, admit_launch, claim, bound_fields, publish_record, claim_launch,
  bind_valid, bind_launch, runs_already, bind_present, bind_record, bind_token, bind_locked,
}
use playbook_harness.Sessions.Admission.{IsAdmission, admit_launch-IsAdmission}
use playbook_harness.Sessions.Rebound.{consume-entries, rebind-entries}

-- The launch is gone after a bind that returns, and else claimed by its conversation.
abbrev pub Spent : Bind → Bound → Type 0
Spent b (ok r, disk) = lookup b.path disk.launches ≡ none
Spent b (err e, disk) =
    (l : Launch) × (lookup b.path disk.launches ≡ some l)
    × (is_reserved l.state ≡ false)
    × (is_key l.claimed_provider l.claimed_session_id b.key ≡ true)

-- A valid launch in time that lets the conversation in, and is spent.
pub record IsClaimed (clock : Clock) (b : Bind) (disk : Disk) (left : Bound) : Type 0 where
  pub launch : Launch
  pub holds : lookup b.path disk.launches ≡ some launch
  pub valid : validate_launch clock launch ≡ ok tt
  pub in_time : instant_before (clock launch.expires_at) b.at ≡ false
  pub admitted : IsAdmission b launch (entry_of b.key disk.entries).session_record
  pub spent : Spent b left
  pub others_kept :
      (name : Text)
      → text_eq (directory_name b.key) name ≡ false
      → lookup name left.1.entries ≡ lookup name disk.entries

-- No record is written, or the launch was claimed.
abbrev pub BindOutcome : Clock → Bind → Disk → Bound → Type 0
BindOutcome clock b disk left = (left.1.entries ≡ disk.entries) ⊎ IsClaimed clock b disk left

is_key_refl : (key : SessionKey) → is_key (some key.provider) (some key.session_id) key ≡ true
is_key_refl key = rw (text_eq_refl key.provider, text_eq_refl key.session_id) refl

-- The launch before the record is written: claimed by the conversation.
abbrev Held : Bind → Launches → Type 0
Held b files =
    (l : Launch) × (lookup b.path files ≡ some l)
    × (is_reserved l.state ≡ false)
    × (is_key l.claimed_provider l.claimed_session_id b.key ≡ true)

consume-Spent :
    (b : Bind) (r : SessionRecord) (disk : Disk) (c : Check × Files)
    → Held b disk.launches
    → Spent b (consume b r disk c)
consume-Spent b r disk (err e, files) h = h
consume-Spent b r disk (ok u, files) h =
    lookup-unlink b.path b.path disk.launches ∙ rw (text_eq_refl b.path) refl

publish_record-Spent :
    (clock : Clock) (b : Bind) (disk : Disk) (p : Result LaneError SessionRecord × Entries)
    → Held b disk.launches
    → Spent b (publish_record clock b disk p) × ((publish_record clock b disk p).1.entries ≡ p.1)
publish_record-Spent clock b disk (err e, entries) h = (h, refl)
publish_record-Spent clock b disk (ok r, entries) h = (
  consume-Spent b r (record disk { entries = entries }) (finalize clock b disk.lanes) h,
  consume-entries b r (record disk { entries = entries }) (finalize clock b disk.lanes),
)

opened-others :
    (key : SessionKey) (entries : Entries) (name : Text) (o : Option SessionEntry)
    → text_eq (directory_name key) name ≡ false
    → lookup name (opened_by (directory_name key) entries o) ≡ lookup name entries
opened-others key entries name none h =
    lookup-write (directory_name key) name empty_entry entries ∙ rw h refl
opened-others key entries name (some e) h = refl

put_record-others :
    (key : SessionKey) (entries : Entries) (r : Result LaneError SessionRecord) (name : Text)
    → text_eq (directory_name key) name ≡ false
    → lookup name (put_record key entries r).1 ≡ lookup name entries
put_record-others key entries (err e) name h =
    opened-others key entries name (lookup (directory_name key) entries) h
put_record-others key entries (ok r) name h =
    lookup-write (directory_name key) name _ entries ∙ rw h refl

probed-others :
    (key : SessionKey) (updates : List Field) (now : Text) (entries : Entries) (name : Text)
    (c : Check)
    → text_eq (directory_name key) name ≡ false
    → lookup name (probed key updates [] now entries c).1 ≡ lookup name entries
probed-others key updates now entries name (err e) h = refl
probed-others key updates now entries name (ok u) h =
    put_record-others key entries (enriched key updates [] now (entry_of key entries)) name h

ensure_record-others :
    (key : SessionKey) (updates : List Field) (now : Text) (entries : Entries) (name : Text)
    → text_eq (directory_name key) name ≡ false
    → lookup name (ensure_record key updates [] now entries).1 ≡ lookup name entries
unfolding ensure_record
ensure_record-others key updates now entries name h =
    probed-others key updates now entries name
      (validate_record (merge updates (blank_record key (codes "validation-probe"))) key) h

abbrev claimed_launches : Bind → Disk → Launch → Launches
claimed_launches b disk l =
    if is_reserved l.state then write b.path (claim b l) disk.launches else disk.launches

claimed_launches-Held :
    (b : Bind) (disk : Disk) (l : Launch)
    → lookup b.path disk.launches ≡ some l
    → (is_reserved l.state ≡ true) ⊎ (is_key l.claimed_provider l.claimed_session_id b.key ≡ true)
    → Held b (claimed_launches b disk l)
claimed_launches-Held b disk l p u = elim (Bool-cases (is_reserved l.state)) [
  | inl e ↦ rw e (
    claim b l,
    lookup-write b.path b.path (claim b l) disk.launches ∙ rw (text_eq_refl b.path) refl,
    refl,
    is_key_refl b.key,
  )
  | inr e ↦ rw e (
    l,
    p,
    e,
    (let k : is_key l.claimed_provider l.claimed_session_id b.key ≡ true = ground (arith, e, u) in
        k),
  )
]

claim_launch-BindOutcome :
    (clock : Clock) (b : Bind) (disk : Disk) (l : Launch) (c : Check)
    → lookup b.path disk.launches ≡ some l
    → validate_launch clock l ≡ ok tt
    → instant_before (clock l.expires_at) b.at ≡ false
    → admit_launch b l (entry_of b.key disk.entries).session_record ≡ c
    → BindOutcome clock b disk (claim_launch clock b disk l c)
claim_launch-BindOutcome clock b disk l (err e) p v t a = inl refl
claim_launch-BindOutcome clock b disk l (ok u) p v t a =
    let i = admit_launch-IsAdmission b l (entry_of b.key disk.entries).session_record a in
    let s =
      publish_record-Spent clock b (record disk { launches = claimed_launches b disk l })
        (ensure_record b.key (bound_fields b l) [] b.now disk.entries)
        (claimed_launches-Held b disk l p i.unclaimed) in
    inr (record {
      launch = l;
      holds = p;
      valid = v;
      in_time = t;
      admitted = i;
      spent = s.0;
      others_kept = λ name h.
          ap (lookup name) s.1
          ∙ ensure_record-others b.key (bound_fields b l) b.now disk.entries name h;
    })

bind_valid-BindOutcome :
    (clock : Clock) (b : Bind) (disk : Disk) (l : Launch) (c : Check)
    → lookup b.path disk.launches ≡ some l
    → validate_launch clock l ≡ c
    → BindOutcome clock b disk (bind_valid clock b disk l c)
bind_valid-BindOutcome clock b disk l (err e) p v = inl refl
bind_valid-BindOutcome clock b disk l (ok u) p v =
    elim (Bool-cases (instant_before (clock l.expires_at) b.at)) [
      | inl e ↦ rw e (inl refl)
      | inr e ↦ rw e (
          claim_launch-BindOutcome clock b disk l
            (admit_launch b l (entry_of b.key disk.entries).session_record) p v e refl)
    ]

bind_launch-BindOutcome :
    (clock : Clock) (b : Bind) (disk : Disk) (o : Option Launch)
    → lookup b.path disk.launches ≡ o
    → BindOutcome clock b disk (bind_launch clock b disk o)
bind_launch-BindOutcome clock b disk none p = inl refl
bind_launch-BindOutcome clock b disk (some l) p =
    bind_valid-BindOutcome clock b disk l (validate_launch clock l) p refl

bind_present-BindOutcome :
    (clock : Clock) (b : Bind) (disk : Disk) (r : SessionRecord) (c : Check)
    → BindOutcome clock b disk (bind_present clock b disk r c)
bind_present-BindOutcome clock b disk r (err e) = inl refl
bind_present-BindOutcome clock b disk r (ok u) = elim (Bool-cases (runs_already b r)) [
  | inl e ↦ rw e (inl (rebind-entries clock b r disk (lookup b.path disk.launches)))
  | inr e ↦ rw e (bind_launch-BindOutcome clock b disk (lookup b.path disk.launches) refl)
]

bind_record-BindOutcome :
    (clock : Clock) (b : Bind) (disk : Disk) (o : Option SessionRecord)
    → BindOutcome clock b disk (bind_record clock b disk o)
bind_record-BindOutcome clock b disk none =
    bind_launch-BindOutcome clock b disk (lookup b.path disk.launches) refl
bind_record-BindOutcome clock b disk (some r) =
    bind_present-BindOutcome clock b disk r (validate_record r b.key)

bind_token-BindOutcome :
    (clock : Clock) (b : Bind) (disk : Disk) (c : Check)
    → BindOutcome clock b disk (bind_token clock b disk c)
bind_token-BindOutcome clock b disk (err e) = inl refl
bind_token-BindOutcome clock b disk (ok u) =
    bind_record-BindOutcome clock b disk (entry_of b.key disk.entries).session_record

-- Whatever a hook brings: unless a launch stands under its token that is valid, in time, of its
-- provider, body, project and agent directory, that no other conversation has claimed, and that is
-- for a conversation without a record or resumes this stopped one under its name, no session
-- record is written. If one is, it is that of the conversation, and the launch is gone when the
-- call returns, and claimed by the conversation when it raises.
pub bind_locked-BindOutcome :
    (clock : Clock) (b : Bind) (disk : Disk) → BindOutcome clock b disk (bind_locked clock b disk)
unfolding bind_locked
bind_locked-BindOutcome clock b disk = bind_token-BindOutcome clock b disk (validate_token b.token)
