-- ===== src/Arena/Controller/Accepted.antt =====
-- The logs that the control loop writes are logs that the replay accepts.
use playbook_harness.Base.{
  Option, ℕ, zero, suc, ◌+◌, ◌≤◌, ◌≡◌, refl, sym, Bool, true, false, none, some, List, [], ◌∷◌,
  ◌++◌, ok, ◌>>=◌, get_elem?, arith, Option-cases, inl, inr, All, some-eq, >>=-assoc, >>=-ext,
  subst, ap, ◌∙◌,
}
use playbook_harness.Text.{Text, text_eq, text_eq_iff, text_eq_refl}
use playbook_harness.Arena.Controller.{
  ScriptEvent, Terminal, delivery_requested, controller_failed, Entry, ControllerState, index_from,
  known, placed, is_pending, request, send, advance, acknowledged, skipped, replay_entry,
  replay_from,
}
use playbook_harness.Arena.Controller.Decide.{
  lacks_predecessor, WorkerState, Action, wait, complete, deliver, acknowledge, skip, stop, fail,
  ControllerDecision, decide_event, find_event, about, decision_entry, sent_entry,
}
use playbook_harness.Arena.Controller.Invariant.{IsController-PendingAt, IsController}

-- No two events of a script have one id.
abbrev pub Distinct : List ScriptEvent → Type 0
Distinct [] = Unit
Distinct (e ∷ es) = All (λ f. text_eq e.id f.id ≡ false) es × Distinct es

-- The first event awaits no acknowledgment of another.
abbrev pub Begins : Option ScriptEvent → Type 0
Begins none = Unit
Begins (some e) = lacks_predecessor e.deliver_when 0 ≡ false

-- What the schema checks of a script and the controller relies on.
pub record IsScript (es : List ScriptEvent) : Type 0 where
  pub distinct : Distinct es
  pub timeouts : All (λ e. 1 ≤ e.timeout_seconds) es
  pub first : Begins (get_elem? es 0)

pub All-at {ℓ κ} :
    {A : Type ℓ} (P : A → Type κ) (xs : List A) (i : ℕ) {x : A}
    → All P xs
    → get_elem? xs i ≡ some x
    → P x
All-at P [] i p h = cc
All-at P (y ∷ xs) zero p h = subst P (some-eq h) p.0
All-at P (y ∷ xs) (suc i) p h = All-at P xs i p.1 h

index_from-absent :
    (i : ℕ) (es : List ScriptEvent) (id : Text)
    → All (λ f. text_eq id f.id ≡ false) es
    → index_from i es id ≡ none
unfolding index_from
index_from-absent i [] id d = refl
index_from-absent i (e ∷ es) id d =
    ground (arith, index_from-absent (suc i) es id d.1, text_eq_iff e.id id, text_eq_iff id e.id)

index_from-distinct :
    (i : ℕ) (es : List ScriptEvent) (k : ℕ) {e : ScriptEvent}
    → Distinct es
    → get_elem? es k ≡ some e
    → index_from i es e.id ≡ some (i + k)
unfolding index_from
index_from-distinct i [] k d h = cc
index_from-distinct i (f ∷ es) zero {e} d h =
    ground (arith, index_from-absent (suc i) es f.id d.0, text_eq_refl e.id)
index_from-distinct i (f ∷ es) (suc k) {e} d h =
    ground (arith, index_from-distinct (suc i) es k {e = e} d.1 h)

pub find_event-distinct :
    (es : List ScriptEvent) (k : ℕ) {e : ScriptEvent}
    → Distinct es
    → get_elem? es k ≡ some e
    → find_event es e.id ≡ ok e
unfolding find_event
find_event-distinct [] k d h = cc
find_event-distinct (f ∷ es) zero {e} d h = ground (arith, text_eq_refl e.id)
find_event-distinct (f ∷ es) (suc k) {e} d h = ground (
  arith,
  All-at (λ g. text_eq f.id g.id ≡ false) es k {x = e} d.0 h,
  find_event-distinct es k {e = e} d.1 h,
)

pub replay_from-append :
    (es : List ScriptEvent) (s : ControllerState) (log rs : List Entry)
    → replay_from es s (log ++ rs) ≡ (do t ← replay_from es s log; replay_from es t rs)
unfolding replay_from
replay_from-append es s [] rs = refl
replay_from-append es s (r ∷ log) rs =
    >>=-ext (replay_entry es s r.kind r.payload) (λ t. replay_from-append es t log rs)
    ∙ sym (>>=-assoc (replay_entry es s r.kind r.payload) _ _)

-- What a state must be for the entry of an action to replay; all other actions always fit.
abbrev pub Fits : ControllerState → Action → Type 0
Fits s deliver = s.pending_event_id ≡ none
Fits s acknowledge = s.delivery_sent ≡ true
Fits s _ = Unit

-- A decision about the event at the position of the script.
pub record IsDecided (s : ControllerState) (e : ScriptEvent) (d : ControllerDecision) : Type 0 where
  pub event : d.event_id ≡ some e.id
  pub fits : Fits s d.action
  pub unfinished : (d.action ≡ complete) → ⊥

pub decide_event-IsDecided :
    (finds : Text → Text → Bool) (es : List ScriptEvent) (s : ControllerState) (e : ScriptEvent)
    (w : WorkerState) (t : Text) (o : Bool) {d : ControllerDecision}
    → IsController es s
    → decide_event finds s e w t o ≡ ok d
    → IsDecided s e d
unfolding decide_event
decide_event-IsDecided finds es s e w t o c h = ground arith

-- The states behind a request and behind a delivery.
abbrev requested : ControllerState → ScriptEvent → ControllerState
requested s e = record s {
  pending_event_id = some e.id;
  delivery_requested = true;
  delivery_sent = false;
}

abbrev delivered : ControllerState → ScriptEvent → ℕ → ℕ → ControllerState
delivered s e n k = record (requested s e) {
  delivery_sent = true;
  output_offset = n;
  acknowledgment_deadline = some k;
}

module _ (es : List ScriptEvent) (s : ControllerState) (e : ScriptEvent) (script : IsScript es)
    (c : IsController es s) (at : get_elem? es s.next_index ≡ some e)
    (live : s.terminal ≡ none) where
  known_here : known es (some e.id) ≡ ok (e.id, s.next_index)
  known_here = ap (placed e.id) (
      index_from-distinct 0 es s.next_index {e = e} script.distinct at
      ∙ ap (λ (i : ℕ). some i) (omega arith))

  pub pending_here :
      {id : Text} → s.pending_event_id ≡ some id → is_pending s.pending_event_id e.id ≡ true
  pending_here {id} h =
      let (f, p, q) = IsController-PendingAt es s c h in ground (arith, text_eq_iff id e.id)

  request_here : s.pending_event_id ≡ none → request s (e.id, s.next_index) ≡ ok (requested s e)
  request_here h = ground (arith, h, live)

  acknowledged_here : s.delivery_sent ≡ true → acknowledged s (e.id, s.next_index) ≡ ok (advance s)
  acknowledged_here h = elim (Option-cases s.pending_event_id) [
    | inl n ↦ ground (arith, n, c.sent, c.requested, h)
    | inr (id, n) ↦ ground (arith, n, h, pending_here n)
  ]

  skipped_here : skipped s (e.id, s.next_index) ≡ ok (advance s)
  skipped_here = elim (Option-cases s.pending_event_id) [
    | inl n ↦ ground (arith, n, live)
    | inr (id, n) ↦ ground (arith, n, live, pending_here n)
  ]

  send_here :
      (n k : ℕ)
      → 1 ≤ k
      → send (requested s e) (e.id, s.next_index) (sent_entry e n k).payload
        ≡ ok (delivered s e n k)
  send_here n k l = ground (arith, text_eq_refl e.id)

  -- Every entry of a decision that fits can be replayed.
  pub decision_entry-replays :
      (a : Action)
      → Fits s a
      → (t : ControllerState) × (replay_from es s (decision_entry a e) ≡ ok t)
  unfolding replay_from replay_entry
  decision_entry-replays wait f = (s, refl)
  decision_entry-replays complete f = (s, refl)
  decision_entry-replays deliver f = (requested s e, rw (known_here, request_here f) refl)
  decision_entry-replays acknowledge f = (advance s, rw (known_here, acknowledged_here f) refl)
  decision_entry-replays skip f = (advance s, rw (known_here, skipped_here) refl)
  decision_entry-replays stop f =
      (record s { terminal = some Terminal.stopped }, rw known_here refl)
  decision_entry-replays fail f = (record s { terminal = some Terminal.failed }, rw known_here refl)

  -- So can the two entries of a delivery.
  pub delivery-replays :
      (n k : ℕ)
      → s.pending_event_id ≡ none
      → 1 ≤ k
      → (t : ControllerState) × (replay_from es s
            (about delivery_requested e ∷ sent_entry e n k ∷ [])
          ≡ ok t)
  unfolding replay_from replay_entry
  delivery-replays n k f l =
      (delivered s e n k, rw (known_here, request_here f, send_here n k l) refl)

  pub failure-replays :
      s.pending_event_id ≡ none
      → (t : ControllerState) × (replay_from es s
            (about delivery_requested e ∷ about controller_failed e ∷ [])
          ≡ ok t)
  unfolding replay_from replay_entry
  failure-replays f = (
    record (requested s e) { terminal = some Terminal.failed },
    rw (known_here, request_here f) refl,
  )
