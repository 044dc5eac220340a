-- ===== src/Sessions/Fresh.antt =====
-- A new conversation is bound to a launch that is in time.
use playbook_harness.Base.{◌≡◌, refl, sym, ◌∙◌, true, false, Option, none, some, [], ok, is_empty}
use playbook_harness.Text.{Text, codes, text_eq_refl}
use playbook_harness.Identity.{SessionKey, key_eq}
use playbook_harness.Lanes.{lane_of}
use playbook_harness.Lanes.Validate.{validate_body_id, session_key}
use playbook_harness.Lanes.Transition.{finalize_lane_binding}
use playbook_harness.Sessions.{new, Launch, reserved, SessionRecord, running, SessionEntry, Disk}
use playbook_harness.Sessions.Directory.{lookup, write, unlink, lookup-write, lookup-unlink}
use playbook_harness.Sessions.Launches.{Clock, validate_token, validate_launch, instant_before}
use playbook_harness.Sessions.Records.{
  merge, blank_record, validate_record, entry_of, enriched, ensure_record, directory_name,
  has_fields,
}
use playbook_harness.Sessions.Bind.{
  Bind, bound_fields, named_field, admit_launch, claim, bind_locked, bind_launch,
}

-- The record that a bind of a new conversation writes.
abbrev pub bound_record : Bind → Launch → Text → SessionRecord
bound_record b l created = record {
  provider = b.key.provider;
  session_id = b.key.session_id;
  created_at = created;
  name = l.name;
  managed = some true;
  state = some running;
  project = some b.root;
  workspace = some (record { mode = codes "current"; path = b.root });
  resume_cwd = some l.cwd;
  tmux_session = none;
  tmux_pane = none;
  last_started_at = some b.now;
  stopped_at = none;
  lost_at = none;
  destroyed_at = none;
  body_id = some b.body;
  sandbox = some l.sandbox;
}

merge-named :
    (r : SessionRecord) (o : Option Text)
    → r.name ≡ none
    → merge (named_field o) r ≡ record r { name = o }
merge-named r none h = rw (sym h) refl
merge-named r (some n) h = refl

merge-bound :
    (b : Bind) (l : Launch) (created : Text)
    → merge (bound_fields b l) (blank_record b.key created) ≡ bound_record b l created
merge-bound b l created =
    merge-named (record (bound_record b l created) { name = none }) l.name refl

-- A launch that nobody has claimed, of a new conversation, in time, and without anything on the disk
-- that stands against it.
pub record IsOpen (clock : Clock) (b : Bind) (disk : Disk) (l : Launch) : Type 0 where
  pub token : validate_token b.token ≡ ok tt
  pub key : session_key b.key.provider (some b.key.session_id) ≡ ok b.key
  pub started : is_empty b.now ≡ false
  pub holds : lookup b.path disk.launches ≡ some l
  pub valid : validate_launch clock l ≡ ok tt
  pub safe_body : validate_body_id b.body ≡ ok tt
  pub in_time : instant_before (clock l.expires_at) b.at ≡ false
  pub same_provider : l.provider ≡ b.key.provider
  pub same_body : l.body_id ≡ b.body
  pub same_project : l.project ≡ b.root
  pub same_agent : l.agent_dir ≡ b.agent
  pub operation : l.operation ≡ new
  pub unclaimed : l.state ≡ reserved
  pub no_entry : lookup (directory_name b.key) disk.entries ≡ none
  pub no_lane : lane_of b.body disk.lanes ≡ none

key_eq_refl : (k : SessionKey) → key_eq k k ≡ true
unfolding key_eq
key_eq_refl k = rw (text_eq_refl k.provider, text_eq_refl k.session_id) refl

validate_record-bound :
    (b : Bind) (l : Launch) (created : Text)
    → session_key b.key.provider (some b.key.session_id) ≡ ok b.key
    → validate_body_id b.body ≡ ok tt
    → is_empty created ≡ false
    → validate_record (bound_record b l created) b.key ≡ ok tt
unfolding validate_record
validate_record-bound b l created k v e = rw (k, key_eq_refl b.key, e, v) refl

enriched-bound :
    (b : Bind) (l : Launch) (e : SessionEntry)
    → session_key b.key.provider (some b.key.session_id) ≡ ok b.key
    → validate_body_id b.body ≡ ok tt
    → is_empty b.now ≡ false
    → e ≡ record { session_record = none; current_state = none; other_files = [] }
    → enriched b.key (bound_fields b l) [] b.now e ≡ ok (bound_record b l b.now)
unfolding enriched has_fields
enriched-bound b l e k v s n =
    rw (n, merge-bound b l b.now, validate_record-bound b l b.now k v s) refl

admit_launch-open :
    (clock : Clock) (b : Bind) (disk : Disk) (l : Launch)
    → IsOpen clock b disk l
    → admit_launch b l none ≡ ok tt
unfolding admit_launch
admit_launch-open clock b disk l o =
    rw
      (
        o.same_provider,
        o.same_body,
        o.same_project,
        o.same_agent,
        text_eq_refl b.key.provider,
        text_eq_refl b.body,
        text_eq_refl b.root,
        text_eq_refl b.agent,
        o.unclaimed,
        o.operation,
      )
      refl

abbrev new_entry : Bind → Launch → SessionEntry
new_entry b l = record {
  session_record = some (bound_record b l b.now);
  current_state = none;
  other_files = [];
}

ensure_record-open :
    (clock : Clock) (b : Bind) (disk : Disk) (l : Launch)
    → IsOpen clock b disk l
    → ensure_record b.key (bound_fields b l) [] b.now disk.entries
      ≡ (ok (bound_record b l b.now), write (directory_name b.key) (new_entry b l) disk.entries)
unfolding ensure_record
ensure_record-open clock b disk l o =
    rw
      (
        merge-bound b l (codes "validation-probe"),
        validate_record-bound b l (codes "validation-probe") o.key o.safe_body refl,
        o.no_entry,
        enriched-bound b l
            (record { session_record = none; current_state = none; other_files = [] }) o.key
            o.safe_body o.started refl,
        o.no_entry,
      )
      refl

bind_launch-open :
    (clock : Clock) (b : Bind) (disk : Disk) (l : Launch)
    → IsOpen clock b disk l
    → bind_launch clock b disk (some l) ≡ (
      ok (bound_record b l b.now),
      record {
        launches = unlink b.path (write b.path (claim b l) disk.launches);
        lanes = disk.lanes;
        entries = write (directory_name b.key) (new_entry b l) disk.entries;
      },
    )
unfolding finalize_lane_binding
bind_launch-open clock b disk l o =
    rw
      (
        o.valid,
        o.in_time,
        o.no_entry,
        admit_launch-open clock b disk l o,
        ensure_record-open clock b disk l o,
        o.safe_body,
        o.no_lane,
        o.unclaimed,
      )
      refl

-- The binding of a new conversation by a hook of the launch's provider, body, project and agent
-- directory succeeds while the launch is unclaimed and in time, where no directory has the
-- conversation's name and the body has no lane: its record is written, as a running managed session
-- with the launch's name and settings, and the launch is gone.
pub bind_locked-opens :
    (clock : Clock) (b : Bind) (disk : Disk) (l : Launch)
    → IsOpen clock b disk l
    → ((bind_locked clock b disk).0 ≡ ok (bound_record b l b.now))
      × (lookup b.path (bind_locked clock b disk).1.launches ≡ none)
      × ((entry_of b.key (bind_locked clock b disk).1.entries).session_record
          ≡ some (bound_record b l b.now))
      × ((bind_locked clock b disk).1.lanes ≡ disk.lanes)
unfolding bind_locked
bind_locked-opens clock b disk l o =
    rw (o.token, o.no_entry, o.holds, bind_launch-open clock b disk l o)
      (
        refl,
        lookup-unlink b.path b.path (write b.path (claim b l) disk.launches)
            ∙ rw (text_eq_refl b.path) refl,
        rw
            (
              lookup-write (directory_name b.key) (directory_name b.key) (new_entry b l)
                  disk.entries,
              text_eq_refl (directory_name b.key),
            )
            refl,
        refl,
      )
