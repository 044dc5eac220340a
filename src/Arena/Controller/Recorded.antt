-- ===== src/Arena/Controller/Recorded.antt =====
-- A round of the control loop leaves a log that replays, and raises only what its surroundings cause.
use playbook_harness.Base.{
  ◌≡◌, refl, Bool, List, ok, err, ltb, get_elem?, Option-cases, inl, inr, Bool-cases,
}
use mathlib.Core.List.{}
use playbook_harness.Text.{Text, starts_with}
use playbook_harness.Arena.Controller.{
  ScriptEvent, Entry, ControllerState, fresh, replay_from, replay_controller,
}
use playbook_harness.Arena.Controller.Decide.{decide, finished, decide_event}
use playbook_harness.Arena.Controller.Rounds.{
  Limits, Observation, Round, carry_out, act_on, round_from, control_round, new_output, timed_out,
}
use playbook_harness.Arena.Controller.Invariant.{
  IsController, replay_controller-IsController, replay_controller-replay_from,
  replay_from-replay_controller,
}
use playbook_harness.Arena.Controller.Accepted.{IsScript}
use playbook_harness.Arena.Controller.Carried.{
  Sound, RaisesFaults, complete-Sound, decide_event-Sound,
}

-- What `decide` gives is carried out soundly.
decide-Sound :
    (finds : Text → Text → Bool) (es : List ScriptEvent) (limits : Limits) (seen : Observation)
    (log : List Entry) (s : ControllerState)
    → IsScript es
    → replay_from es fresh log ≡ ok s
    → IsController es s
    → Sound es (
        act_on es limits seen s log
          (decide finds es s seen.worker_state (new_output seen s) (timed_out seen s)))
unfolding decide act_on carry_out decide_event
decide-Sound finds es limits seen log s script h c = elim (Option-cases s.terminal) [
  | inr (t, n) ↦ rw n (complete-Sound es limits seen log s finished h)
  | inl n ↦ elim (Option-cases (get_elem? es s.next_index)) [
    | inl m ↦ rw (n, m) (complete-Sound es limits seen log s finished h)
    | inr (e, m) ↦ rw (n, m) (decide_event-Sound es limits seen log s e script h c m n finds _ _ _)
  ]
]

Sound-both :
    (es : List ScriptEvent) (r : Round)
    → Sound es r
    → ((t : ControllerState) × (replay_controller es r.1 ≡ ok t)) × RaisesFaults r.0
Sound-both es (ok n, log) (t, h) = ((t, replay_controller-replay_from es log h), tt)
Sound-both es (err e, log) ((t, h), f) = ((t, replay_controller-replay_from es log h), f)

-- A round on a log that replays leaves a log that replays, whatever the worker, the transport and
-- the clock do; an exception comes from the transport, a limit or a rewritten terminal log only.
pub control_round-replays :
    (finds : Text → Text → Bool) (es : List ScriptEvent) (limits : Limits) (seen : Observation)
    (log : List Entry) (s : ControllerState)
    → IsScript es
    → replay_controller es log ≡ ok s
    → ((t : ControllerState) × (replay_controller es (control_round finds es limits seen log).1
          ≡ ok t))
      × RaisesFaults (control_round finds es limits seen log).0
unfolding control_round round_from
control_round-replays finds es limits seen log s script h =
    let k = replay_from-replay_controller es log h in
    let c = replay_controller-IsController es log s h in
    Sound-both es (control_round finds es limits seen log)
      (elim (Bool-cases (starts_with seen.prior_log seen.current_log)) [
        | inr b ↦ rw b ((s, k), refl)
        | inl b ↦ elim (Bool-cases (ltb limits.max_output_bytes seen.log_bytes)) [
          | inl o ↦ rw (b, o) ((s, k), refl)
          | inr o ↦ rw (b, o, h) (decide-Sound finds es limits seen log s script k c)
        ]
      ])
