-- ===== src/Arena/Controller/Carried.antt =====
-- The round behind a decision leaves a log that replays.
use playbook_harness.Base.{
  Result, Result-ok, ℕ, ◌+◌, ◌≤◌, ◌≡◌, refl, sym, Bool, true, false, ◌||◌, none, some, List, [],
  ◌∷◌, ◌++◌, ◌==◌, ok, err, ◌>>=◌, leb, length, get_elem?, arith, Option-cases, inl, inr, subst,
  Bool-cases, ap, ◌∙◌,
}
use mathlib.Core.List.{append_assoc}
use playbook_harness.Text.{Text}
use playbook_harness.Arena.Controller.{
  ArenaError, intervention_limit, log_rewritten, output_limit, send_failed, ScriptEvent, Entry,
  ControllerState, fresh, replay_from, replay_entry, is_none, is_pending, Trigger, start, after_ack,
  after_worker_exit, delivery_requested, controller_failed,
}
use playbook_harness.Arena.Controller.Decide.{
  WorkerState, lacks_predecessor, Action, wait, complete, deliver, acknowledge, skip, stop, fail,
  ControllerDecision, find_event, about, decision_entry, sent_entry, record_decision, record_sent,
  record_send_failure, is_terminal, is_recorded, decide_event,
}
use playbook_harness.Arena.Controller.Rounds.{
  Next, Limits, Observation, Round, wall_timeout, check_wall, timeout_of, transmit, carry_out,
  act_on, requests,
}
use playbook_harness.Arena.Controller.Invariant.{IsController}
use playbook_harness.Arena.Controller.Accepted.{
  Begins, IsScript, Fits, All-at, decide_event-IsDecided, find_event-distinct, replay_from-append,
  decision_entry-replays, pending_here, delivery-replays, failure-replays,
}

abbrev pub Replays : List ScriptEvent → List Entry → Type 0
Replays es log = (t : ControllerState) × (replay_from es fresh log ≡ ok t)

-- What the worker, the transport or a limit is to blame for.
abbrev pub is_fault : ArenaError → Bool
is_fault intervention_limit = true
is_fault log_rewritten = true
is_fault output_limit = true
is_fault send_failed = true
is_fault _ = false

-- An exception, if any, is such a fault.
abbrev pub RaisesFaults : Result ArenaError Next → Type 0
RaisesFaults (ok n) = Unit
RaisesFaults (err e) = is_fault e ≡ true

abbrev pub Sound : List ScriptEvent → Round → Type 0
Sound es (ok n, log) = Replays es log
Sound es (err e, log) = Replays es log × (is_fault e ≡ true)

extend :
    (es : List ScriptEvent) (log rs : List Entry) {s : ControllerState}
    → replay_from es fresh log ≡ ok s
    → ((t : ControllerState) × (replay_from es s rs ≡ ok t))
    → Replays es (log ++ rs)
extend es log rs {s} h (t, k) =
    (t, replay_from-append es fresh log rs ∙ ap (λ r. r >>= (λ t. replay_from es t rs)) h ∙ k)

wall-replays :
    (es : List ScriptEvent) (s : ControllerState) → replay_from es s (wall_timeout ∷ []) ≡ ok s
unfolding replay_from replay_entry
wall-replays es s = refl

check_wall-Sound :
    (es : List ScriptEvent) (limits : Limits) (seen : Observation) (log : List Entry)
    → Replays es log
    → Sound es (check_wall limits seen log)
check_wall-Sound es limits seen log (s, h) =
    elim (Bool-cases (leb limits.control_deadline seen.ends_at)) [
      | inl e ↦ rw e (extend es log (wall_timeout ∷ []) h (s, wall-replays es s))
      | inr e ↦ rw e (s, h)
    ]

late_has_none : (t : Trigger) (i : ℕ) → (i == 0) ≡ false → lacks_predecessor t i ≡ false
late_has_none start i h = refl
late_has_none after_ack i h = h
late_has_none after_worker_exit i h = refl

pub complete-Sound :
    (es : List ScriptEvent) (limits : Limits) (seen : Observation) (log : List Entry)
    (s : ControllerState) (d : ControllerDecision)
    → replay_from es fresh log ≡ ok s
    → Sound es (carry_out es limits seen s log complete d)
unfolding carry_out
complete-Sound es limits seen log s d h = elim (Bool-cases (is_terminal seen.worker_state)) [
  | inl b ↦ rw b (s, h)
  | inr b ↦ rw b (check_wall-Sound es limits seen log (s, h))
]

module _ (es : List ScriptEvent) (limits : Limits) (seen : Observation) (log : List Entry)
    (s : ControllerState) (e : ScriptEvent) (script : IsScript es)
    (h : replay_from es fresh log ≡ ok s) (c : IsController es s)
    (at : get_elem? es s.next_index ≡ some e) (live : s.terminal ≡ none) where
  found : find_event es e.id ≡ ok e
  found = find_event-distinct es s.next_index {e = e} script.distinct at

  recorded :
      (d : ControllerDecision) (a : Action)
      → d.action ≡ a
      → d.event_id ≡ some e.id
      → is_recorded a ≡ true
      → record_decision es log d ≡ ok (log ++ decision_entry a e)
  unfolding record_decision
  recorded d a q i r = rw (q, r, i, found) refl

  replayed : (a : Action) → Fits s a → Replays es (log ++ decision_entry a e)
  replayed a f =
      extend es log (decision_entry a e) h (decision_entry-replays es s e script c at live a f)

  twice : (a b : Entry) → (log ++ (a ∷ [])) ++ (b ∷ []) ≡ log ++ (a ∷ b ∷ [])
  twice a b = append_assoc log (a ∷ []) (b ∷ [])

  timeout_positive : 1 ≤ timeout_of es s.next_index
  timeout_positive =
      rw (timeout_of, at)
        (All-at (λ (f : ScriptEvent). 1 ≤ f.timeout_seconds) es s.next_index script.timeouts at)

  delivered-Replays :
      s.pending_event_id ≡ none
      → Replays es (
          (log ++ (about delivery_requested e ∷ []))
          ++ (sent_entry e (length seen.current_log) (seen.sent_at + timeout_of es s.next_index)
              ∷ []))
  delivered-Replays f = subst (Replays es) (sym (twice _ _)) (
      extend es log _ h (
        delivery-replays es s e script c at live (length seen.current_log)
          (seen.sent_at + timeout_of es s.next_index) f (omega (arith, timeout_positive))))

  failed-Replays :
      s.pending_event_id ≡ none
      → Replays es ((log ++ (about delivery_requested e ∷ [])) ++ (about controller_failed e ∷ []))
  failed-Replays f =
      subst (Replays es) (sym (twice _ _))
        (extend es log _ h (failure-replays es s e script c at live f))

  transmit-Sound :
      s.pending_event_id ≡ none
      → Sound es (transmit es limits seen s e.id (log ++ (about delivery_requested e ∷ [])))
  unfolding record_sent record_send_failure
  transmit-Sound f = elim (Bool-cases seen.sent) [
    | inl b ↦
        rw (b, found)
          (check_wall-Sound es limits (record seen { sent = true }) _ (delivered-Replays f))
    | inr b ↦ rw (b, found) (failed-Replays f, refl)
  ]

  -- The round behind a decision of each kind; `d` is the decision.
  carry_out-Sound :
      (d : ControllerDecision) (a : Action)
      → d.action ≡ a
      → d.event_id ≡ some e.id
      → Fits s a
      → Sound es (carry_out es limits seen s log a d)
  unfolding carry_out
  carry_out-Sound d wait q i f = check_wall-Sound es limits seen log (s, h)
  carry_out-Sound d complete q i f = complete-Sound es limits seen log s d h
  carry_out-Sound d deliver q i f =
      elim (Bool-cases (leb limits.max_interventions (requests log))) [
        | inl b ↦ rw b ((s, h), refl)
        | inr b ↦ rw (b, recorded d deliver q i refl, i) (transmit-Sound f)
      ]
  carry_out-Sound d acknowledge q i f =
      rw (recorded d acknowledge q i refl)
        (check_wall-Sound es limits seen _ (replayed acknowledge f))
  carry_out-Sound d skip q i f =
      rw (recorded d skip q i refl) (check_wall-Sound es limits seen _ (replayed skip f))
  carry_out-Sound d stop q i f = rw (recorded d stop q i refl) (replayed stop f)
  carry_out-Sound d fail q i f = rw (recorded d fail q i refl) (replayed fail f)

  first_has_none : lacks_predecessor e.deliver_when s.next_index ≡ false
  first_has_none = elim (Bool-cases (s.next_index == 0)) [
    | inl z ↦
        let n : s.next_index ≡ 0 = ground arith in
        subst (λ i. lacks_predecessor e.deliver_when i ≡ false) (sym n)
          (subst Begins (subst (λ i. get_elem? es i ≡ some e) n at) script.first)
    | inr z ↦ late_has_none e.deliver_when s.next_index z
  ]

  pending_fits : (is_none s.pending_event_id || is_pending s.pending_event_id e.id) ≡ true
  pending_fits = elim (Option-cases s.pending_event_id) [
    | inl n ↦ rw n refl
    | inr (id, n) ↦ ground (arith, n, pending_here es s e script c at live n)
  ]

  -- The controller always decides on the event at its position.
  decide_event-ok :
      (finds : Text → Text → Bool) (w : WorkerState) (t : Text) (o : Bool)
      → (d : ControllerDecision) × (decide_event finds s e w t o ≡ ok d)
  unfolding decide_event
  decide_event-ok finds w t o =
      Result-ok (decide_event finds s e w t o) (λ x h. ground (arith, first_has_none, pending_fits))

  pub decide_event-Sound :
      (finds : Text → Text → Bool) (w : WorkerState) (t : Text) (o : Bool)
      → Sound es (act_on es limits seen s log (decide_event finds s e w t o))
  unfolding act_on
  decide_event-Sound finds w t o =
      let (d, q) = decide_event-ok finds w t o in
      let i = decide_event-IsDecided finds es s e w t o {d = d} c q in
      rw q (carry_out-Sound d d.action refl i.event i.fits)
