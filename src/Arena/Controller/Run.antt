-- ===== src/Arena/Controller/Run.antt =====
-- Runs of the control loop on a script that was loaded: rounds from the empty log on, each with what
-- the worker, the transport and the clock do in it. A coordinator that is killed in a round leaves
-- the log that it had with the first of the entries that the round writes, and one that is started
-- again goes on from that log.
use playbook_harness.Base.{◌≡◌, refl, ◌≤◌, Bool, List, [], ◌∷◌, ◌++◌, ok, arith, >>=-eq-ok}
use playbook_harness.Text.{Text}
use playbook_harness.Json.{Members}
use playbook_harness.Arena.Controller.{
  ScriptEvent, Entry, ControllerState, fresh, replay_entry, replay_controller, replay_from,
}
use playbook_harness.Arena.Controller.Rounds.{Limits, Observation, control_round}
use playbook_harness.Arena.Controller.Accepted.{IsScript}
use playbook_harness.Arena.Controller.Recorded.{control_round-replays}
use playbook_harness.Arena.Controller.Invariant.{
  replay_from-replay_controller, replay_controller-replay_from,
}
use playbook_harness.Arena.Controller.Once.{requests_of, replay_controller-delivers_once}
use playbook_harness.Arena.Schema.Script.{ScriptDefinition, load_script}
use playbook_harness.Arena.Schema.Loaded.{script_of, load_script-IsScript}

pub data Reached (finds : Text → Text → Bool) (limits : Limits) (es : List ScriptEvent)
    : List Entry → Type 0 where
  begun : Reached finds limits es []
  round :
      {log : List Entry}
      → Reached finds limits es log
      → (seen : Observation) → Reached finds limits es (control_round finds es limits seen log).1
  killed :
      {log : List Entry}
      → Reached finds limits es log
      → (seen : Observation) (written lost : List Entry)
      → (control_round finds es limits seen log).1 ≡ (log ++ written) ++ lost
      → Reached finds limits es (log ++ written)

-- What a replay read first, it can read alone.
replay_from-prefix :
    (es : List ScriptEvent) (s : ControllerState) (xs ys : List Entry) {t : ControllerState}
    → replay_from es s (xs ++ ys) ≡ ok t
    → (u : ControllerState) × (replay_from es s xs ≡ ok u)
unfolding replay_from
replay_from-prefix es s [] ys h = (s, refl)
replay_from-prefix es s (x ∷ xs) ys h =
    let (v, p, q) = >>=-eq-ok (replay_entry es s x.kind x.payload) _ h in
    let (u, r) = replay_from-prefix es v xs ys q in (u, rw p r)

replay_controller-prefix :
    (es : List ScriptEvent) (xs ys : List Entry) {t : ControllerState}
    → replay_controller es (xs ++ ys) ≡ ok t
    → (u : ControllerState) × (replay_controller es xs ≡ ok u)
replay_controller-prefix es xs ys h =
    let (u, p) =
      replay_from-prefix es fresh xs ys (replay_from-replay_controller es (xs ++ ys) h) in
    (u, replay_controller-replay_from es xs p)

empty-replays : (es : List ScriptEvent) → (t : ControllerState) × (replay_controller es [] ≡ ok t)
unfolding replay_controller replay_from
empty-replays es = (fresh, ground arith)

Reached-replays :
    (finds : Text → Text → Bool) (limits : Limits) (es : List ScriptEvent) (log : List Entry)
    → IsScript es
    → Reached finds limits es log
    → (t : ControllerState) × (replay_controller es log ≡ ok t)
Reached-replays finds limits es [] s begun = empty-replays es
Reached-replays finds limits es _ s (round {log} r seen) =
    let (t, h) = Reached-replays finds limits es log s r in
    (control_round-replays finds es limits seen log t s h).0
Reached-replays finds limits es _ s (killed {log} r seen written lost e) =
    let (t, h) = Reached-replays finds limits es log s r in
    let (u, k) = (control_round-replays finds es limits seen log t s h).0 in
    replay_controller-prefix es (log ++ written) lost (rw e at k)

-- Every run of the control loop on a script that was loaded, with any number of rounds, each of which
-- ends or is cut short behind any of the entries it writes, and goes on from the log so left,
-- leaves a log that replays, in which the delivery of each event is requested at most once.
pub load_script-delivers_once :
    (compiles : Text → Bool) (finds : Text → Text → Bool) (limits : Limits) (raw : Members)
    (s : ScriptDefinition) (log : List Entry) (id : Text)
    → load_script compiles raw ≡ ok s
    → Reached finds limits (script_of s.events) log
    → ((t : ControllerState) × (replay_controller (script_of s.events) log ≡ ok t))
      × (requests_of id log ≤ 1)
load_script-delivers_once compiles finds limits raw s log id h r =
    let es = script_of s.events in
    let (t, p) = Reached-replays finds limits es log (load_script-IsScript compiles raw s h).0 r in
    ((t, p), replay_controller-delivers_once es log id t p)
