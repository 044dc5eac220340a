-- ===== src/Arena/Chain.antt =====
-- arena/src/playbook_arena/store.py: the event log of a run, a chain of hashes.
-- A line of events.jsonl that is a JSON object with the fields of an event, the program's `schema` and
-- a text for its `time`, of which `verify` demands the first and not the second, is an `Event`; `digest` is
-- `_event_hash`, SHA-256 of the canonical JSON of the fields but the hash, and a parameter. The file
-- is the list of its lines, or missing; state.json is the snapshot that was written last.
pub mod Appended
pub mod Evidence
use playbook_harness.Base.{
  ℕ, suc, ◌+◌, Bool, true, false, not, ◌&&◌, ◌||◌, Option, none, some, List, [], ◌∷◌, ◌++◌, ◌==◌,
  if◌then◌else◌, Result, ok, err, ◌>>=◌, is_empty,
}
use playbook_harness.Text.{Text, codes, text_eq}

pub data StoreError : Type 0 where
  no_log empty_log broken_chain invalid_content hash_mismatch read_only invalid_event : StoreError
  snapshot_conflict : StoreError

-- What an event says, and what its hash is taken of.
pub record Fields (Payload : Type 0) : Type 0 where
  pub sequence : ℕ
  pub time : Text
  pub type : Text
  pub payload : Payload
  pub previous_hash : Text

pub record Event (Payload : Type 0) : Type 0 where
  pub fields : Fields Payload
  pub hash : Text

-- `VerifiedEvent`
pub record Verified (Payload : Type 0) : Type 0 where
  pub sequence : ℕ
  pub type : Text
  pub payload : Payload
  pub hash : Text

pub record Snapshot : Type 0 where
  pub sequence : ℕ
  pub last_hash : Text
  pub state : Text

-- The files of a run: the log, and the state once it was written.
pub record RunFiles (Payload : Type 0) : Type 0 where
  pub events : Option (List (Event Payload))
  pub snapshot : Option Snapshot

abbrev pub zero_hash : Text
zero_hash = codes "0000000000000000000000000000000000000000000000000000000000000000"

abbrev pub verified_event : {Payload : Type 0} → Event Payload → Verified Payload
verified_event e = record {
  sequence = e.fields.sequence;
  type = e.fields.type;
  payload = e.fields.payload;
  hash = e.hash;
}

abbrev pub to_snapshot : {Payload : Type 0} → Verified Payload → Text → Snapshot
to_snapshot e state = record { sequence = e.sequence; last_hash = e.hash; state = state }

module _ {Payload : Type 0} where
  abbrev pub last_of : Verified Payload → List (Verified Payload) → Verified Payload
  last_of v [] = v
  last_of v (w ∷ ws) = last_of w ws

  -- The number and the previous hash of an event behind the others.
  abbrev pub next_link : ℕ → Text → List (Verified Payload) → ℕ × Text
  next_link expected previous [] = (expected, previous)
  next_link expected previous (v ∷ vs) = ((last_of v vs).sequence + 1, (last_of v vs).hash)

  abbrev pub lines_of : Option (List (Event Payload)) → List (Event Payload)
  lines_of none = []
  lines_of (some es) = es

  abbrev pub written : RunFiles Payload → Event Payload → Text → RunFiles Payload
  written files e state = record {
    events = some (lines_of files.events ++ (e ∷ []));
    snapshot = some (to_snapshot (verified_event e) state);
  }

  -- `resume`: the snapshot must be that of the last event.
  abbrev pub agrees : Option Snapshot → List (Verified Payload) → Bool
  agrees none vs = false
  agrees (some s) [] = false
  agrees (some s) (v ∷ vs) =
      text_eq s.last_hash (last_of v vs).hash && s.sequence == (last_of v vs).sequence

module _ {Payload : Type 0} (digest : Fields Payload → Text) where
  -- The checks of one line.
  unfoldable pub check_event : ℕ → Text → Event Payload → Result StoreError (Verified Payload)
  check_event expected previous e =
      if not (e.fields.sequence == expected && text_eq e.fields.previous_hash previous)
      then err broken_chain
      else if is_empty e.fields.type
      then err invalid_content
      else if not (text_eq e.hash (digest e.fields))
      then err hash_mismatch
      else ok (verified_event e)

  -- The loop of `verify`.
  unfoldable pub verify_from :
      ℕ → Text → List (Event Payload) → Result StoreError (List (Verified Payload))
  verify_from expected previous [] = ok []
  verify_from expected previous (e ∷ es) = do
    v ← check_event expected previous e
    vs ← verify_from (suc expected) v.hash es
    ok (v ∷ vs)

  unfoldable pub verify :
      Option (List (Event Payload)) → Result StoreError (List (Verified Payload))
  verify none = err no_log
  verify (some []) = err empty_log
  verify (some (e ∷ es)) = verify_from 1 zero_hash (e ∷ es)

  -- Where the next event is linked: `sequence` and `previous` of `append`.
  abbrev pub link_of : Option (List (Event Payload)) → Result StoreError (ℕ × Text)
  link_of none = ok (1, zero_hash)
  link_of (some es) = do vs ← verify (some es); ok (next_link 1 zero_hash vs)

  abbrev pub make_fields : ℕ × Text → Text → Text → Payload → Fields Payload
  make_fields (sequence, previous) time type payload = record {
    sequence = sequence;
    time = time;
    type = type;
    payload = payload;
    previous_hash = previous;
  }

  abbrev pub make_event : ℕ × Text → Text → Text → Payload → Event Payload
  make_event link time type payload = record {
    fields = make_fields link time type payload;
    hash = digest (make_fields link time type payload);
  }

  abbrev pub append_linked :
      RunFiles Payload
      → Text
      → Text
      → Payload
      → Text
      → Result StoreError (ℕ × Text)
      → Result StoreError (Verified Payload) × RunFiles Payload
  append_linked files time type payload state (err e) = (err e, files)
  append_linked files time type payload state (ok link) = (
    ok (verified_event (make_event link time type payload)),
    written files (make_event link time type payload) state,
  )

  unfoldable pub append :
      Bool
      → RunFiles Payload
      → Text
      → Text
      → Payload
      → Text
      → Result StoreError (Verified Payload) × RunFiles Payload
  append is_read_only files time type payload state =
      if is_read_only
      then (err read_only, files)
      else if is_empty type
      then (err invalid_event, files)
      else append_linked files time type payload state (link_of files.events)

  unfoldable pub check_resumable : RunFiles Payload → Result StoreError (List (Verified Payload))
  check_resumable files = do
    vs ← verify files.events
    (if agrees files.snapshot vs then ok vs else err snapshot_conflict)
