-- ===== src/Arena/Controller/Rounds.antt =====
-- arena/src/playbook_arena/run.py, the `while` loop of `_control_and_collect`: one round observes the
-- worker, replays the log, decides, and records what it did.
-- What the transport and the clock say in a round is an `Observation`; texts are measured in
-- characters, and `log_bytes` is the length that the encoding of the log has.
use playbook_harness.Base.{
  ℕ, suc, ◌+◌, Bool, false, not, Option, none, some, List, [], ◌∷◌, ◌++◌, if◌then◌else◌, Result, ok,
  err, leb, ltb, length, get_elem?, drop,
}
use playbook_harness.Text.{Text, starts_with}
use playbook_harness.Arena.Controller.{
  ArenaError, intervention_limit, log_rewritten, output_limit, send_failed, ScriptEvent,
  delivery_requested, other, Entry, ControllerState, replay_controller,
}
use playbook_harness.Arena.Controller.Decide.{
  WorkerState, is_terminal, Action, wait, complete, deliver, acknowledge, skip, stop, fail,
  ControllerDecision, decide, record_decision, record_sent, record_send_failure,
}

pub record Limits : Type 0 where
  pub max_interventions : ℕ
  pub max_output_bytes : ℕ
  pub control_deadline : ℕ

-- `sent` says whether `transport.send` returned; the three times are those of the calls of
-- `time.time()`, in their order.
pub record Observation : Type 0 where
  pub worker_state : WorkerState
  pub prior_log : Text
  pub current_log : Text
  pub log_bytes : ℕ
  pub sent : Bool
  pub asked_at : ℕ
  pub sent_at : ℕ
  pub ends_at : ℕ

-- `break`, or another round.
pub data Next : Type 0 where
  leave repeat : Next

abbrev pub Round : Type 0
Round = Result ArenaError Next × List Entry

unfoldable pub requests : List Entry → ℕ
requests [] = 0
requests (r ∷ rs) = let n = requests rs in elim r.kind [ delivery_requested ↦ suc n | _ ↦ n ]

abbrev pub wall_timeout : Entry
wall_timeout = record {
  kind = other;
  payload = record { event_id = none; output_offset = none; deadline = none };
}

-- The end of a round: the wall clock.
abbrev pub check_wall : Limits → Observation → List Entry → Round
check_wall limits seen log =
    if leb limits.control_deadline seen.ends_at
    then (ok leave, log ++ (wall_timeout ∷ []))
    else (ok repeat, log)

abbrev pub recorded_or :
    List Entry → Result ArenaError (List Entry) → Result ArenaError Next → Round
recorded_or log (err e) next = (err e, log)
recorded_or log (ok log') next = (next, log')

abbrev pub walled : Limits → Observation → List Entry → Result ArenaError (List Entry) → Round
walled limits seen log (err e) = (err e, log)
walled limits seen log (ok log') = check_wall limits seen log'

abbrev pub timeout_of : List ScriptEvent → ℕ → ℕ
timeout_of es i = elim (get_elem? es i) [ none ↦ 0 | some e ↦ e.timeout_seconds ]

abbrev pub id_of : Option Text → Text
id_of none = []
id_of (some id) = id

-- `transport.send`, and the record of how it went.
abbrev pub transmit :
    List ScriptEvent → Limits → Observation → ControllerState → Text → List Entry → Round
transmit es limits seen s id log =
    if seen.sent
    then walled limits seen log (
        record_sent es log id (length seen.current_log) (seen.sent_at + timeout_of es s.next_index))
    else recorded_or log (record_send_failure es log id) (err send_failed)

abbrev pub deliver_event :
    List ScriptEvent
    → Limits
    → Observation
    → ControllerState
    → ControllerDecision
    → List Entry
    → Round
deliver_event es limits seen s d log =
    if leb limits.max_interventions (requests log)
    then (err intervention_limit, log)
    else elim (record_decision es log d) [
      | err e ↦ (err e, log)
      | ok log' ↦ transmit es limits seen s (id_of d.event_id) log'
    ]

-- What is done on a decision.
unfoldable pub carry_out :
    List ScriptEvent
    → Limits
    → Observation
    → ControllerState
    → List Entry
    → Action
    → ControllerDecision
    → Round
carry_out es limits seen s log deliver d = deliver_event es limits seen s d log
carry_out es limits seen s log acknowledge d = walled limits seen log (record_decision es log d)
carry_out es limits seen s log skip d = walled limits seen log (record_decision es log d)
carry_out es limits seen s log stop d = recorded_or log (record_decision es log d) (ok leave)
carry_out es limits seen s log fail d = recorded_or log (record_decision es log d) (ok leave)
carry_out es limits seen s log complete d =
    if is_terminal seen.worker_state then (ok leave, log) else check_wall limits seen log
carry_out es limits seen s log wait d = check_wall limits seen log

-- The output behind the delivery, and whether its acknowledgment is overdue.
abbrev pub new_output : Observation → ControllerState → Text
new_output seen s = if s.delivery_sent then drop s.output_offset seen.current_log else []

abbrev pub timed_out : Observation → ControllerState → Bool
timed_out seen s = elim s.acknowledgment_deadline [ none ↦ false | some t ↦ leb t seen.asked_at ]

unfoldable pub act_on :
    List ScriptEvent
    → Limits
    → Observation
    → ControllerState
    → List Entry
    → Result ArenaError ControllerDecision
    → Round
act_on es limits seen s log (err e) = (err e, log)
act_on es limits seen s log (ok d) = carry_out es limits seen s log d.action d

unfoldable pub round_from :
    (Text → Text → Bool)
    → List ScriptEvent
    → Limits
    → Observation
    → List Entry
    → Result ArenaError ControllerState
    → Round
round_from finds es limits seen log (err e) = (err e, log)
round_from finds es limits seen log (ok s) =
    act_on es limits seen s log
      (decide finds es s seen.worker_state (new_output seen s) (timed_out seen s))

-- One round, on the log of the store.
unfoldable pub control_round :
    (Text → Text → Bool) → List ScriptEvent → Limits → Observation → List Entry → Round
control_round finds es limits seen log =
    if not (starts_with seen.prior_log seen.current_log)
    then (err log_rewritten, log)
    else if ltb limits.max_output_bytes seen.log_bytes
    then (err output_limit, log)
    else round_from finds es limits seen log (replay_controller es log)
