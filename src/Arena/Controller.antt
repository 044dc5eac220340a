-- ===== src/Arena/Controller.antt =====
-- arena/src/playbook_arena/controller.py, with the classes of schema.py and store.py that it uses:
-- the controller's state, rebuilt from the event log.
-- Of an event's payload the members that replay reads are kept; a member that is missing or has a
-- type or a value that replay refuses is `none`. Epochs are counted in ticks, from 1 on.
pub mod Decide
pub mod Rounds
pub mod Invariant
pub mod Accepted
pub mod Carried
pub mod Recorded
pub mod Once
pub mod Run
use playbook_harness.Base.{
  ℕ, suc, ◌+◌, Bool, true, false, not, ◌&&◌, ◌||◌, Option, none, some, List, [], ◌∷◌, ◌==◌,
  if◌then◌else◌, Result, ok, err, ◌>>=◌, ltb, length,
}
use playbook_harness.Text.{Text, text_eq}

-- `ArenaCaseError`, by what is wrong.
pub data ArenaError : Type 0 where
  invalid_event_id out_of_order_request out_of_order_send bad_offset bad_deadline : ArenaError
  ack_without_send out_of_order_skip beyond_script pending_mismatch no_predecessor : ArenaError
  unknown_event intervention_limit log_rewritten output_limit send_failed : ArenaError

pub data Trigger : Type 0 where
  start after_ack after_worker_exit : Trigger

pub data TimeoutAction : Type 0 where
  on_fail on_skip on_stop : TimeoutAction

pub record ScriptEvent : Type 0 where
  pub id : Text
  pub message : Text
  pub deliver_when : Trigger
  pub acknowledge : Text
  pub timeout_seconds : ℕ
  pub on_timeout : TimeoutAction

-- The types of events, `other` for those that the controller does not read.
pub data Kind : Type 0 where
  delivery_requested delivery_sent delivery_acknowledged script_event_skipped : Kind
  controller_stopped controller_failed other : Kind

pub record Payload : Type 0 where
  pub event_id : Option Text
  pub output_offset : Option ℕ
  pub deadline : Option ℕ

-- `VerifiedEvent`, without its place in the chain.
pub record Entry : Type 0 where
  pub kind : Kind
  pub payload : Payload

pub data Terminal : Type 0 where
  stopped failed : Terminal

pub record ControllerState : Type 0 where
  pub next_index : ℕ
  pub pending_event_id : Option Text
  pub delivery_requested : Bool
  pub delivery_sent : Bool
  pub output_offset : ℕ
  pub acknowledgment_deadline : Option ℕ
  pub terminal : Option Terminal

abbrev pub fresh : ControllerState
fresh = record {
  next_index = 0;
  pending_event_id = none;
  delivery_requested = false;
  delivery_sent = false;
  output_offset = 0;
  acknowledgment_deadline = none;
  terminal = none;
}

-- `index_by_id.get(id)`: a later event with the same id replaces an earlier one.
unfoldable pub index_from : ℕ → List ScriptEvent → Text → Option ℕ
index_from i [] id = none
index_from i (e ∷ es) id = elim (index_from (suc i) es id) [
  | some j ↦ some j
  | none ↦ if text_eq e.id id then some i else none
]

abbrev pub placed : Text → Option ℕ → Result ArenaError (Text × ℕ)
placed id none = err invalid_event_id
placed id (some i) = ok (id, i)

-- The event id of a payload and the place of that event in the script.
abbrev pub known : List ScriptEvent → Option Text → Result ArenaError (Text × ℕ)
known es none = err invalid_event_id
known es (some id) = placed id (index_from 0 es id)

abbrev pub is_pending : Option Text → Text → Bool
is_pending none id = false
is_pending (some p) id = text_eq p id

abbrev pub is_none {ℓ} : {A : Type ℓ} → Option A → Bool
is_none none = true
is_none (some a) = false

abbrev pub request : ControllerState → Text × ℕ → Result ArenaError ControllerState
request s (id, i) =
    if not (is_none s.terminal) || not (is_none s.pending_event_id) || not (i == s.next_index)
    then err out_of_order_request
    else ok
        (record s { pending_event_id = some id; delivery_requested = true; delivery_sent = false })

abbrev pub note_offset : ControllerState → Option ℕ → Result ArenaError ControllerState
note_offset s none = err bad_offset
note_offset s (some n) = ok (record s { output_offset = n })

abbrev pub note_deadline : ControllerState → Option ℕ → Result ArenaError ControllerState
note_deadline s none = err bad_deadline
note_deadline s (some n) =
    if n == 0 then err bad_deadline else ok (record s { acknowledgment_deadline = some n })

abbrev pub send : ControllerState → Text × ℕ → Payload → Result ArenaError ControllerState
send s (id, i) p =
    if not (is_pending s.pending_event_id id) || not s.delivery_requested || s.delivery_sent
    then err out_of_order_send
    else (do
      t ← note_offset (record s { delivery_sent = true }) p.output_offset
      note_deadline t p.deadline)

-- The event is done with; the next one is awaited.
abbrev pub advance : ControllerState → ControllerState
advance s = record s {
  next_index = suc s.next_index;
  pending_event_id = none;
  delivery_requested = false;
  delivery_sent = false;
  output_offset = 0;
  acknowledgment_deadline = none;
}

abbrev pub acknowledged : ControllerState → Text × ℕ → Result ArenaError ControllerState
acknowledged s (id, i) =
    if not (is_pending s.pending_event_id id) || not s.delivery_sent
    then err ack_without_send
    else ok (advance s)

abbrev pub skipped : ControllerState → Text × ℕ → Result ArenaError ControllerState
skipped s (id, i) =
    if not (is_none s.terminal)
      || not (is_none s.pending_event_id || is_pending s.pending_event_id id)
      || not (i == s.next_index)
    then err out_of_order_skip
    else ok (advance s)

-- One round of the loop of `replay_controller`.
unfoldable pub replay_entry :
    List ScriptEvent → ControllerState → Kind → Payload → Result ArenaError ControllerState
replay_entry es s delivery_requested p = do k ← known es p.event_id; request s k
replay_entry es s delivery_sent p = do k ← known es p.event_id; send s k p
replay_entry es s delivery_acknowledged p = do k ← known es p.event_id; acknowledged s k
replay_entry es s script_event_skipped p = do k ← known es p.event_id; skipped s k
replay_entry es s controller_stopped p = do
  k ← known es p.event_id
  ok (record s { terminal = some stopped })
replay_entry es s controller_failed p = do
  k ← known es p.event_id
  ok (record s { terminal = some failed })
replay_entry es s other p = ok s

unfoldable pub replay_from :
    List ScriptEvent → ControllerState → List Entry → Result ArenaError ControllerState
replay_from es s [] = ok s
replay_from es s (r ∷ rs) = do t ← replay_entry es s r.kind r.payload; replay_from es t rs

abbrev pub within_script : List ScriptEvent → ControllerState → Result ArenaError ControllerState
within_script es s = if ltb (length es) s.next_index then err beyond_script else ok s

unfoldable pub replay_controller : List ScriptEvent → List Entry → Result ArenaError ControllerState
replay_controller es log = do s ← replay_from es fresh log; within_script es s
