-- ===== src/Tests/Controllers.antt =====
-- A script of two events, a log of its run, and instances of the controller's theorems.
use playbook_harness.Base.{◌≤◌, ◌≡◌, refl, Bool, true, false, List, [], ◌∷◌, ok, arith}
use playbook_harness.Text.{Text, codes, text_eq}
use playbook_harness.Arena.Controller.{
  ScriptEvent, start, after_ack, on_fail, on_skip, Entry, delivery_acknowledged, delivery_requested,
  ControllerState, fresh, replay_controller, replay_from, replay_entry, index_from,
}
use playbook_harness.Arena.Controller.Decide.{running, about, sent_entry}
use playbook_harness.Arena.Controller.Rounds.{Limits, Observation, control_round}
use playbook_harness.Arena.Controller.Invariant.{IsController, replay_controller-IsController}
use playbook_harness.Arena.Controller.Accepted.{IsScript}
use playbook_harness.Arena.Controller.Carried.{RaisesFaults}
use playbook_harness.Arena.Controller.Recorded.{control_round-replays}
use playbook_harness.Arena.Controller.Once.{requests_of, replay_controller-delivers_once}

abbrev hello : ScriptEvent
hello = record {
  id = codes "hello";
  message = codes "Say hello.";
  deliver_when = start;
  acknowledge = codes "hello";
  timeout_seconds = 60;
  on_timeout = on_fail;
}

abbrev bye : ScriptEvent
bye = record {
  id = codes "bye";
  message = codes "Say bye.";
  deliver_when = after_ack;
  acknowledge = codes "bye";
  timeout_seconds = 60;
  on_timeout = on_skip;
}

abbrev script : List ScriptEvent
script = hello ∷ bye ∷ []

abbrev log : List Entry
log =
    about delivery_requested hello ∷ sent_entry hello 4 70 ∷ about delivery_acknowledged hello ∷ []

abbrev waiting : ControllerState
waiting = record fresh { next_index = 1 }

log-replays : replay_controller script log ≡ ok waiting
unfolding replay_controller replay_from replay_entry index_from text_eq
log-replays = refl

script-IsScript : IsScript script
unfolding text_eq
script-IsScript = record {
  distinct = ((refl, tt), (tt, tt));
  timeouts = (omega arith, (omega arith, tt));
  first = refl;
}

abbrev seen : Observation
seen = record {
  worker_state = running;
  prior_log = codes "$ ";
  current_log = codes "$ hello";
  log_bytes = 7;
  sent = true;
  asked_at = 20;
  sent_at = 21;
  ends_at = 22;
}

abbrev limits : Limits
limits = record { max_interventions = 2; max_output_bytes = 1000; control_deadline = 500 }

abbrev never : Text → Text → Bool
never pattern text = false

replay_controller-IsController_example : IsController script waiting
replay_controller-IsController_example =
    replay_controller-IsController script log waiting log-replays

replay_controller-delivers_once_example : requests_of (codes "hello") log ≤ 1
replay_controller-delivers_once_example =
    replay_controller-delivers_once script log (codes "hello") waiting log-replays

control_round-replays_example :
    ((t : ControllerState) × (replay_controller script
          (control_round never script limits seen log).1
        ≡ ok t))
    × RaisesFaults (control_round never script limits seen log).0
control_round-replays_example =
    control_round-replays never script limits seen log waiting script-IsScript log-replays
