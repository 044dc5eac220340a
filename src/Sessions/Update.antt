-- ===== src/Sessions/Update.antt =====
-- What an update of a session record leaves.
use playbook_harness.Base.{
  ◌≡◌, refl, sym, subst, ◌∙◌, ◌⊎◌, inl, inr, true, false, Option, none, some, List, [], ◌∷◌, arith,
  Result, ok, err, >>=-eq-ok,
}
use playbook_harness.Text.{Text, codes, text_eq, text_eq_refl}
use playbook_harness.Identity.{SessionKey}
use playbook_harness.Lanes.{LaneError, record_changed}
use playbook_harness.Lanes.Validate.{Check, require}
use playbook_harness.Sessions.{SessionRecord, SessionEntry, Entries}
use playbook_harness.Sessions.Directory.{lookup, lookup-write}
use playbook_harness.Sessions.Records.{
  Field, name, project, resume_cwd, tmux_session, tmux_pane, body_id, last_started_at, stopped_at,
  lost_at, destroyed_at, managed, sandbox, state, workspace, set_field, merge, has_fields,
  blank_record, directory_name, entry_of, validate_record, current_record, enriched, put_record,
  ensure_record, opened_by, empty_entry, probed,
}

-- The record that is written: that of the directory, or a new one, with the updates.
pub record IsUpdate (key : SessionKey) (updates expected : List Field) (now : Text)
    (entries : Entries) (r : SessionRecord) (left : Entries) : Type 0 where
  pub current : SessionRecord
  pub source :
      ((entry_of key entries).session_record ≡ some current)
      ⊎ (((entry_of key entries).session_record ≡ none) × (current ≡ blank_record key now))
  pub expected_held : has_fields expected current ≡ true
  pub merged : r ≡ merge updates current
  pub valid : validate_record r key ≡ ok tt
  pub same_identity : (r.provider ≡ current.provider) × (r.session_id ≡ current.session_id)
  pub same_creation : r.created_at ≡ current.created_at
  pub stored : (entry_of key left).session_record ≡ some r
  pub others_kept :
      (other : Text)
      → text_eq (directory_name key) other ≡ false
      → lookup other left ≡ lookup other entries

-- Nothing changed, or an empty directory was made.
abbrev pub IsUntouched : SessionKey → Entries → Entries → Type 0
IsUntouched key entries left =
    (left ≡ entries)
    ⊎ ((lookup (directory_name key) entries ≡ none)
        × (lookup (directory_name key) left ≡ some empty_entry)
        × ((other : Text)
            → text_eq (directory_name key) other ≡ false
            → lookup other left ≡ lookup other entries))

abbrev pub EnsureOutcome :
    SessionKey
    → List Field
    → List Field
    → Text
    → Entries
    → Result LaneError SessionRecord × Entries
    → Type 0
EnsureOutcome key updates expected now entries (err e, left) = IsUntouched key entries left
EnsureOutcome key updates expected now entries (ok r, left) =
    IsUpdate key updates expected now entries r left

abbrev Unset : SessionRecord → SessionRecord → Type 0
Unset r s =
    (r.provider ≡ s.provider) × (r.session_id ≡ s.session_id) × (r.created_at ≡ s.created_at)

set_field-Unset : (f : Field) (r : SessionRecord) → Unset (set_field f r) r
set_field-Unset (name v) r = (refl, refl, refl)
set_field-Unset (project v) r = (refl, refl, refl)
set_field-Unset (resume_cwd v) r = (refl, refl, refl)
set_field-Unset (tmux_session v) r = (refl, refl, refl)
set_field-Unset (tmux_pane v) r = (refl, refl, refl)
set_field-Unset (body_id v) r = (refl, refl, refl)
set_field-Unset (last_started_at v) r = (refl, refl, refl)
set_field-Unset (stopped_at v) r = (refl, refl, refl)
set_field-Unset (lost_at v) r = (refl, refl, refl)
set_field-Unset (destroyed_at v) r = (refl, refl, refl)
set_field-Unset (managed v) r = (refl, refl, refl)
set_field-Unset (sandbox v) r = (refl, refl, refl)
set_field-Unset (state v) r = (refl, refl, refl)
set_field-Unset (workspace v) r = (refl, refl, refl)

merge-Unset : (fs : List Field) (r : SessionRecord) → Unset (merge fs r) r
merge-Unset [] r = (refl, refl, refl)
merge-Unset (f ∷ fs) r =
    let a = merge-Unset fs (set_field f r) in
    let b = set_field-Unset f r in (a.0 ∙ b.0, a.1 ∙ b.1, a.2 ∙ b.2)

current_record-source :
    (key : SessionKey) (now : Text) (e : SessionEntry) (o : Option SessionRecord)
    {r : SessionRecord}
    → current_record key now e o ≡ ok r
    → (o ≡ some r) ⊎ ((o ≡ none) × (r ≡ blank_record key now))
current_record-source key now e none h = inr (refl, ground arith)
current_record-source key now e (some s) h = inl (ground arith)

-- What the making of a directory changes: no record, and nothing of another directory.
opened-IsUntouched :
    (key : SessionKey) (entries : Entries) (o : Option SessionEntry)
    → lookup (directory_name key) entries ≡ o
    → IsUntouched key entries (opened_by (directory_name key) entries o)
opened-IsUntouched key entries (some e) h = inl refl
opened-IsUntouched key entries none h = inr (
  h,
  lookup-write (directory_name key) (directory_name key) empty_entry entries
      ∙ rw (text_eq_refl (directory_name key)) refl,
  λ other n. lookup-write (directory_name key) other empty_entry entries ∙ rw n refl,
)

put_record-outcome :
    (key : SessionKey) (updates expected : List Field) (now : Text) (entries : Entries)
    (q : Result LaneError SessionRecord)
    → enriched key updates expected now (entry_of key entries) ≡ q
    → EnsureOutcome key updates expected now entries (put_record key entries q)
unfolding enriched
put_record-outcome key updates expected now entries (err e) h =
    opened-IsUntouched key entries (lookup (directory_name key) entries) refl
put_record-outcome key updates expected now entries (ok r) h =
    let e = entry_of key entries in
    let (current, c, h2) = >>=-eq-ok (current_record key now e e.session_record) _ h in
    let (b, x, h3) = >>=-eq-ok (require (has_fields expected current) record_changed) _ h2 in
    let (d, v, h4) = >>=-eq-ok (validate_record (merge updates current) key) _ h3 in
    let m : merge updates current ≡ r = ground arith in
    let u = subst (λ s. Unset s current) m (merge-Unset updates current) in
    record {
      current = current;
      source = current_record-source key now e e.session_record c;
      expected_held = ground (arith, x);
      merged = sym m;
      valid = subst (λ s. validate_record s key ≡ ok tt) m v;
      same_identity = (u.0, u.1);
      same_creation = u.2;
      stored =
          rw
            (
              lookup-write (directory_name key) (directory_name key)
                  (record e { session_record = some r }) entries,
              text_eq_refl (directory_name key),
            )
            refl;
      others_kept = λ other n. lookup-write (directory_name key) other _ entries ∙ rw n refl;
    }

probed-outcome :
    (key : SessionKey) (updates expected : List Field) (now : Text) (entries : Entries) (c : Check)
    → EnsureOutcome key updates expected now entries (probed key updates expected now entries c)
probed-outcome key updates expected now entries (err e) = inl refl
probed-outcome key updates expected now entries (ok u) =
    put_record-outcome key updates expected now entries
      (enriched key updates expected now (entry_of key entries)) refl

-- An update that raises leaves everything as it was, or an empty directory of the conversation
-- where there was none, and all other directories as they were. One that returns found the expected
-- values in the record of the conversation, or in a new one in an empty directory, and leaves that
-- record with the updates and its identity and creation as they were, valid for the conversation;
-- no other directory changes.
pub ensure_record-outcome :
    (key : SessionKey) (updates expected : List Field) (now : Text) (entries : Entries)
    → EnsureOutcome key updates expected now entries
        (ensure_record key updates expected now entries)
unfolding ensure_record
ensure_record-outcome key updates expected now entries =
    probed-outcome key updates expected now entries
      (validate_record (merge updates (blank_record key (codes "validation-probe"))) key)
