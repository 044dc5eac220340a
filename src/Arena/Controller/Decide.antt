-- ===== src/Arena/Controller/Decide.antt =====
-- controller.py, `decide` and the records of what was decided. Whether a pattern is found in a text
-- (`re.finds`) is a parameter. Of a decision its reason is left out, a text for people.
use playbook_harness.Base.{
  ℕ, Bool, true, false, not, ◌||◌, Option, none, some, List, [], ◌∷◌, ◌++◌, ◌==◌, if◌then◌else◌,
  Result, ok, err, ◌>>=◌, get_elem?,
}
use playbook_harness.Text.{Text, text_eq}
use playbook_harness.Arena.Controller.{
  ArenaError, pending_mismatch, no_predecessor, unknown_event, Trigger, after_ack,
  after_worker_exit, TimeoutAction, on_fail, on_skip, on_stop, ScriptEvent, Kind,
  delivery_requested, delivery_sent, delivery_acknowledged, script_event_skipped,
  controller_stopped, controller_failed, Entry, ControllerState, is_pending, is_none,
}

pub data WorkerState : Type 0 where
  completed failed stopped lost running : WorkerState

-- `worker_state in TERMINAL_WORKER_STATES`; `running` is every other state.
abbrev pub is_terminal : WorkerState → Bool
is_terminal running = false
is_terminal _ = true

pub data Action : Type 0 where
  wait complete deliver acknowledge skip stop fail : Action

pub record ControllerDecision : Type 0 where
  pub action : Action
  pub event_id : Option Text

abbrev pub decided : Action → ScriptEvent → ControllerDecision
decided a e = record { action = a; event_id = some e.id }

abbrev pub timeout_action : TimeoutAction → Action
timeout_action on_fail = fail
timeout_action on_skip = skip
timeout_action on_stop = stop

abbrev pub awaits_exit : Trigger → WorkerState → Bool
awaits_exit after_worker_exit w = not (is_terminal w)
awaits_exit _ w = false

abbrev pub lacks_predecessor : Trigger → ℕ → Bool
lacks_predecessor after_ack i = i == 0
lacks_predecessor _ i = false

abbrev pub decide_sent : (Text → Text → Bool) → ScriptEvent → WorkerState → Text → Bool → Action
decide_sent finds e worker output timed_out =
    if finds e.acknowledge output
    then acknowledge
    else if timed_out || is_terminal worker
    then timeout_action e.on_timeout
    else wait

-- The decision on the event at the script's position.
unfoldable pub decide_event :
    (Text → Text → Bool)
    → ControllerState
    → ScriptEvent
    → WorkerState
    → Text
    → Bool
    → Result ArenaError ControllerDecision
decide_event finds s e worker output timed_out =
    if not (is_none s.pending_event_id || is_pending s.pending_event_id e.id)
    then err pending_mismatch
    else if s.delivery_sent
    then ok (decided (decide_sent finds e worker output timed_out) e)
    else if s.delivery_requested
    then ok (decided fail e)
    else if awaits_exit e.deliver_when worker
    then ok (decided wait e)
    else if lacks_predecessor e.deliver_when s.next_index
    then err no_predecessor
    else ok (decided deliver e)

abbrev pub finished : ControllerDecision
finished = record { action = complete; event_id = none }

abbrev pub decide_at :
    (Text → Text → Bool)
    → ControllerState
    → Option ScriptEvent
    → WorkerState
    → Text
    → Bool
    → Result ArenaError ControllerDecision
decide_at finds s none worker output timed_out = ok finished
decide_at finds s (some e) worker output timed_out = decide_event finds s e worker output timed_out

unfoldable pub decide :
    (Text → Text → Bool)
    → List ScriptEvent
    → ControllerState
    → WorkerState
    → Text
    → Bool
    → Result ArenaError ControllerDecision
decide finds es s worker output timed_out =
    if not (is_none s.terminal)
    then ok finished
    else decide_at finds s (get_elem? es s.next_index) worker output timed_out

-- `_event`: the first event with the id.
unfoldable pub find_event : List ScriptEvent → Text → Result ArenaError ScriptEvent
find_event [] id = err unknown_event
find_event (e ∷ es) id = if text_eq e.id id then ok e else find_event es id

abbrev pub event_of : List ScriptEvent → Option Text → Result ArenaError ScriptEvent
event_of es none = err unknown_event
event_of es (some id) = find_event es id

-- An event of the log about an event of the script.
abbrev pub about : Kind → ScriptEvent → Entry
about kind e = record {
  kind = kind;
  payload = record { event_id = some e.id; output_offset = none; deadline = none };
}

abbrev pub decision_entry : Action → ScriptEvent → List Entry
decision_entry wait e = []
decision_entry complete e = []
decision_entry deliver e = about delivery_requested e ∷ []
decision_entry acknowledge e = about delivery_acknowledged e ∷ []
decision_entry skip e = about script_event_skipped e ∷ []
decision_entry stop e = about controller_stopped e ∷ []
decision_entry fail e = about controller_failed e ∷ []

abbrev pub is_recorded : Action → Bool
is_recorded wait = false
is_recorded complete = false
is_recorded _ = true

-- The log behind the decision.
unfoldable pub record_decision :
    List ScriptEvent → List Entry → ControllerDecision → Result ArenaError (List Entry)
record_decision es log d =
    if not (is_recorded d.action)
    then ok log
    else (do e ← event_of es d.event_id; ok (log ++ decision_entry d.action e))

abbrev pub sent_entry : ScriptEvent → ℕ → ℕ → Entry
sent_entry e output_offset deadline = record {
  kind = delivery_sent;
  payload = record {
    event_id = some e.id;
    output_offset = some output_offset;
    deadline = some deadline;
  };
}

unfoldable pub record_sent :
    List ScriptEvent → List Entry → Text → ℕ → ℕ → Result ArenaError (List Entry)
record_sent es log id output_offset deadline = do
  e ← find_event es id
  ok (log ++ (sent_entry e output_offset deadline ∷ []))

unfoldable pub record_send_failure :
    List ScriptEvent → List Entry → Text → Result ArenaError (List Entry)
record_send_failure es log id = do
  e ← find_event es id
  ok (
      log
      ++ (record {
        kind = controller_failed;
        payload = record { event_id = some id; output_offset = none; deadline = none };
      }
          ∷ []))
