-- ===== src/Sessions/Records.antt =====
-- The check of a session record, `ensure_session_record` and the navigation cache.
use playbook_harness.Base.{
  Bool, true, false, not, ◌&&◌, Option, none, some, List, [], ◌∷◌, if◌then◌else◌, Result, ok, err,
  ◌>>=◌, is_empty, ◌++◌,
}
use playbook_harness.Text.{Text, codes, text_eq}
use playbook_harness.Identity.{SessionKey, key_eq}
use playbook_harness.Lanes.{LaneError, bad_record, record_disagrees, planted_files, record_changed}
use playbook_harness.Lanes.Validate.{Check, require, validate_body_id, session_key}
use playbook_harness.Sessions.{
  RecordState, running, stopped, destroyed, Workspace, SessionRecord, SessionEntry, Entries,
}
use playbook_harness.Sessions.Directory.{lookup, write}

-- `directory_name`
abbrev pub directory_name : SessionKey → Text
directory_name key = key.provider ++ b'-' ∷ key.session_id

abbrev pub validate_body : Option Text → Check
validate_body none = ok tt
validate_body (some b) = validate_body_id b

-- `_validate_record`, with the identity that the record has.
unfoldable pub read_record : SessionRecord → Result LaneError SessionKey
read_record r = do
  actual ← session_key r.provider (some r.session_id)
  a ← require (not (is_empty r.created_at)) bad_record
  b ← validate_body r.body_id
  ok actual

-- `_validate_record` with the expected identity.
unfoldable pub validate_record : SessionRecord → SessionKey → Check
validate_record r expected = do
  actual ← session_key r.provider (some r.session_id)
  a ← require (key_eq actual expected) record_disagrees
  b ← require (not (is_empty r.created_at)) bad_record
  validate_body r.body_id

-- `_OPTIONAL_FIELDS`, each with a value.
pub data Field : Type 0 where
  name project resume_cwd tmux_session tmux_pane body_id : Option Text → Field
  last_started_at stopped_at lost_at destroyed_at : Option Text → Field
  managed sandbox : Bool → Field
  state : RecordState → Field
  workspace : Workspace → Field

abbrev pub set_field : Field → SessionRecord → SessionRecord
set_field (name v) r = record r { name = v }
set_field (project v) r = record r { project = v }
set_field (resume_cwd v) r = record r { resume_cwd = v }
set_field (tmux_session v) r = record r { tmux_session = v }
set_field (tmux_pane v) r = record r { tmux_pane = v }
set_field (body_id v) r = record r { body_id = v }
set_field (last_started_at v) r = record r { last_started_at = v }
set_field (stopped_at v) r = record r { stopped_at = v }
set_field (lost_at v) r = record r { lost_at = v }
set_field (destroyed_at v) r = record r { destroyed_at = v }
set_field (managed v) r = record r { managed = some v }
set_field (sandbox v) r = record r { sandbox = some v }
set_field (state v) r = record r { state = some v }
set_field (workspace v) r = record r { workspace = some v }

-- `{**current, **updates}`
abbrev pub merge : List Field → SessionRecord → SessionRecord
merge [] r = r
merge (f ∷ fs) r = merge fs (set_field f r)

abbrev pub same_option : Option Text → Option Text → Bool
same_option none none = true
same_option (some a) (some b) = text_eq a b
same_option _ _ = false

abbrev pub same_flag : Option Bool → Bool → Bool
same_flag none v = false
same_flag (some true) v = v
same_flag (some false) v = not v

abbrev pub same_state : Option RecordState → RecordState → Bool
same_state (some running) running = true
same_state (some stopped) stopped = true
same_state (some destroyed) destroyed = true
same_state _ _ = false

abbrev pub same_workspace : Option Workspace → Workspace → Bool
same_workspace none v = false
same_workspace (some w) v = text_eq w.mode v.mode && text_eq w.path v.path

-- `current.get(field) == expected_value`
abbrev pub has_field : SessionRecord → Field → Bool
has_field r (name v) = same_option r.name v
has_field r (project v) = same_option r.project v
has_field r (resume_cwd v) = same_option r.resume_cwd v
has_field r (tmux_session v) = same_option r.tmux_session v
has_field r (tmux_pane v) = same_option r.tmux_pane v
has_field r (body_id v) = same_option r.body_id v
has_field r (last_started_at v) = same_option r.last_started_at v
has_field r (stopped_at v) = same_option r.stopped_at v
has_field r (lost_at v) = same_option r.lost_at v
has_field r (destroyed_at v) = same_option r.destroyed_at v
has_field r (managed v) = same_flag r.managed v
has_field r (sandbox v) = same_flag r.sandbox v
has_field r (state v) = same_state r.state v
has_field r (workspace v) = same_workspace r.workspace v

unfoldable pub has_fields : List Field → SessionRecord → Bool
has_fields [] r = true
has_fields (f ∷ fs) r = has_field r f && has_fields fs r

abbrev pub blank_record : SessionKey → Text → SessionRecord
blank_record key created = record {
  provider = key.provider;
  session_id = key.session_id;
  created_at = created;
  name = none;
  managed = none;
  state = none;
  project = none;
  workspace = none;
  resume_cwd = none;
  tmux_session = none;
  tmux_pane = none;
  last_started_at = none;
  stopped_at = none;
  lost_at = none;
  destroyed_at = none;
  body_id = none;
  sandbox = none;
}

abbrev pub empty_entry : SessionEntry
empty_entry = record { session_record = none; current_state = none; other_files = [] }

abbrev pub entry_or_empty : Option SessionEntry → SessionEntry
entry_or_empty none = empty_entry
entry_or_empty (some e) = e

-- The directory of a session, which is made where there is none.
abbrev pub entry_of : SessionKey → Entries → SessionEntry
entry_of key entries = entry_or_empty (lookup (directory_name key) entries)

abbrev is_none {ℓ} : {A : Type ℓ} → Option A → Bool
is_none none = true
is_none (some a) = false

-- The record that is updated: the present one, or a new one in a directory without files.
abbrev pub current_record :
    SessionKey → Text → SessionEntry → Option SessionRecord → Result LaneError SessionRecord
current_record key now e (some r) = do valid ← validate_record r key; ok r
current_record key now e none =
    if is_empty e.other_files && is_none e.current_state
    then ok (blank_record key now)
    else err planted_files

unfoldable pub enriched :
    SessionKey → List Field → List Field → Text → SessionEntry → Result LaneError SessionRecord
enriched key updates expected now e = do
  current ← current_record key now e e.session_record
  unchanged ← require (has_fields expected current) record_changed
  valid ← validate_record (merge updates current) key
  ok (merge updates current)

abbrev pub opened_by : Text → Entries → Option SessionEntry → Entries
opened_by folder entries none = write folder empty_entry entries
opened_by folder entries (some e) = entries

-- `session_directory(agent_dir, key, create=True)`: the directory is there, or made without files.
abbrev pub opened : SessionKey → Entries → Entries
opened key entries = opened_by (directory_name key) entries (lookup (directory_name key) entries)

-- What is left behind the making of the directory; to write the record in it is one step with that.
abbrev pub put_record :
    SessionKey → Entries → Result LaneError SessionRecord → Result LaneError SessionRecord × Entries
put_record key entries (err e) = (err e, opened key entries)
put_record key entries (ok r) = (
  ok r,
  write (directory_name key) (record (entry_of key entries) { session_record = some r }) entries,
)

-- The updates are validated on a record of their own before a directory is made.
abbrev pub probed :
    SessionKey
    → List Field
    → List Field
    → Text
    → Entries
    → Check
    → Result LaneError SessionRecord × Entries
probed key updates expected now entries (err e) = (err e, entries)
probed key updates expected now entries (ok u) =
    put_record key entries (enriched key updates expected now (entry_of key entries))

-- `ensure_session_record` behind its call of `bind_managed_launch`. A candidate that is the present
-- record is written again here, which leaves the same files.
unfoldable pub ensure_record :
    SessionKey → List Field → List Field → Text → Entries → Result LaneError SessionRecord × Entries
ensure_record key updates expected now entries =
    probed key updates expected now entries
      (validate_record (merge updates (blank_record key (codes "validation-probe"))) key)

abbrev pub is_entry_of : Text → Result LaneError SessionKey → Bool
is_entry_of entry_name (err e) = false
is_entry_of entry_name (ok key) = text_eq entry_name (directory_name key)

abbrev pub listed : Text → SessionEntry → Option SessionRecord → Option SessionRecord
listed entry_name e none = none
listed entry_name e (some r) = if is_entry_of entry_name (read_record r) then some r else none

abbrev pub cons_some {ℓ} : {A : Type ℓ} → Option A → List A → List A
cons_some none xs = xs
cons_some (some x) xs = x ∷ xs

-- `iter_session_directories`: the records that can be read and stand under their name.
unfoldable pub session_records : Entries → List SessionRecord
session_records [] = []
session_records ((k, e) ∷ entries) =
    cons_some (listed k e e.session_record) (session_records entries)
