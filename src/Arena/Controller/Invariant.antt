-- ===== src/Arena/Controller/Invariant.antt =====
-- What holds of every state that replay gives.
use playbook_harness.Base.{
  ◌&&◌, false, ℕ, zero, suc, ◌+◌, ◌≤◌, ◌<◌, ◌≡◌, refl, not, Option, none, some, List, [], ◌∷◌,
  subst, ok-eq, ok, length, get_elem?, arith, >>=-eq-ok, Option-cases, inl, inr,
}
use playbook_harness.Text.{Text, text_eq_iff}
use playbook_harness.Arena.Controller.{
  ScriptEvent, Terminal, Kind, delivery_requested, delivery_sent, delivery_acknowledged,
  script_event_skipped, controller_stopped, controller_failed, other, Payload, Entry,
  ControllerState, fresh, index_from, known, is_none, request, send, advance, acknowledged, skipped,
  replay_entry, replay_from, replay_controller,
}

-- A pending event stands at the position.
abbrev pub PendingAt : List ScriptEvent → ℕ → Option Text → Type 0
PendingAt es i none = Unit
PendingAt es i (some id) = (e : ScriptEvent) × (get_elem? es i ≡ some e) × (e.id ≡ id)

-- The pending event was requested, and only a requested event was sent. The position is inside the
-- script, or behind its last event.
pub record IsController (es : List ScriptEvent) (s : ControllerState) : Type 0 where
  pub position : s.next_index ≤ length es
  pub requested : s.delivery_requested ≡ not (is_none s.pending_event_id)
  pub sent : (s.delivery_sent && not s.delivery_requested) ≡ false
  pub pending : PendingAt es s.next_index s.pending_event_id

pub IsController-PendingAt :
    (es : List ScriptEvent) (s : ControllerState) {id : Text}
    → IsController es s
    → s.pending_event_id ≡ some id
    → (e : ScriptEvent) × (get_elem? es s.next_index ≡ some e) × (e.id ≡ id)
IsController-PendingAt es s c h = subst (PendingAt es s.next_index) h c.pending

-- The index of an id is the place of an event with that id.
pub index_from-at :
    (i : ℕ) (es : List ScriptEvent) (id : Text) {j : ℕ}
    → index_from i es id ≡ some j
    → (k : ℕ) × (e : ScriptEvent) × (i + k ≡ j) × (get_elem? es k ≡ some e) × (e.id ≡ id)
unfolding index_from
index_from-at i [] id h = cc
index_from-at i (e ∷ es) id {j} h = elim (Option-cases (index_from (suc i) es id)) [
  | inl n ↦ (0, e, ground arith, refl, ground (arith, text_eq_iff e.id id))
  | inr (m, n) ↦
      let (k, f, p, q, r) = index_from-at (suc i) es id n in (suc k, f, ground (arith, p), q, r)
]

pub get_elem?-bound {ℓ} :
    {A : Type ℓ} (xs : List A) (i : ℕ) {x : A} → get_elem? xs i ≡ some x → i < length xs
get_elem?-bound [] i h = cc
get_elem?-bound (y ∷ xs) zero h = omega arith
get_elem?-bound (y ∷ xs) (suc i) h = omega (arith, get_elem?-bound xs i h)

pub fresh-IsController : (es : List ScriptEvent) → IsController es fresh
fresh-IsController es = record {
  position = omega arith;
  requested = refl;
  sent = refl;
  pending = tt;
}

-- A known id stands at its index.
pub known-at :
    (es : List ScriptEvent) (o : Option Text) {id : Text} {i : ℕ}
    → known es o ≡ ok (id, i)
    → (o ≡ some id) × (index_from 0 es id ≡ some i)
known-at es none h = cc
known-at es (some v) h = elim (Option-cases (index_from 0 es v)) [
  | inl n ↦ ground (arith, n)
  | inr (j, n) ↦ ground (arith, n)
]

request-IsController :
    (es : List ScriptEvent) (s : ControllerState) (id : Text) (i : ℕ) {t : ControllerState}
    → index_from 0 es id ≡ some i
    → IsController es s
    → request s (id, i) ≡ ok t
    → IsController es t
request-IsController es s id i {t} n c h =
    let (k, e, a, b, r) = index_from-at 0 es id n in ground arith

send-IsController :
    (es : List ScriptEvent) (s : ControllerState) (k : Text × ℕ) (p : Payload) {t : ControllerState}
    → IsController es s
    → send s k p ≡ ok t
    → IsController es t
send-IsController es s k p c h = ground arith

advance-IsController :
    (es : List ScriptEvent) (s : ControllerState)
    → s.next_index < length es
    → IsController es (advance s)
advance-IsController es s h = record {
  position = omega arith;
  requested = refl;
  sent = refl;
  pending = tt;
}

acknowledged-IsController :
    (es : List ScriptEvent) (s : ControllerState) (k : Text × ℕ) {t : ControllerState}
    → IsController es s
    → acknowledged s k ≡ ok t
    → IsController es t
acknowledged-IsController es s k c h = elim (Option-cases s.pending_event_id) [
  | inl n ↦ ground (arith, n)
  | inr (id, n) ↦
      let (e, b, r) = IsController-PendingAt es s c n in
      let l = get_elem?-bound es s.next_index b in
      let a = advance-IsController es s l in ground (arith, n, a)
]

skipped-IsController :
    (es : List ScriptEvent) (s : ControllerState) (id : Text) (i : ℕ) {t : ControllerState}
    → index_from 0 es id ≡ some i
    → IsController es s
    → skipped s (id, i) ≡ ok t
    → IsController es t
skipped-IsController es s id i {t} n c h =
    let (k, e, a, b, r) = index_from-at 0 es id n in
    let l = get_elem?-bound es k b in ground (arith, advance-IsController es s)

stopped-IsController :
    (es : List ScriptEvent) (s : ControllerState) (o : Option Terminal)
    → IsController es s
    → IsController es (record s { terminal = o })
stopped-IsController es s o c = record {
  position = c.position;
  requested = c.requested;
  sent = c.sent;
  pending = c.pending;
}

pub replay_entry-IsController :
    (es : List ScriptEvent) (s : ControllerState) (k : Kind) (p : Payload) {t : ControllerState}
    → IsController es s
    → replay_entry es s k p ≡ ok t
    → IsController es t
unfolding replay_entry
replay_entry-IsController es s delivery_requested p c h =
    let ((id, i), q, r) = >>=-eq-ok (known es p.event_id) _ h in
    request-IsController es s id i (known-at es p.event_id q).1 c r
replay_entry-IsController es s delivery_sent p c h =
    let (k, q, r) = >>=-eq-ok (known es p.event_id) _ h in send-IsController es s k p c r
replay_entry-IsController es s delivery_acknowledged p c h =
    let (k, q, r) = >>=-eq-ok (known es p.event_id) _ h in acknowledged-IsController es s k c r
replay_entry-IsController es s script_event_skipped p c h =
    let ((id, i), q, r) = >>=-eq-ok (known es p.event_id) _ h in
    skipped-IsController es s id i (known-at es p.event_id q).1 c r
replay_entry-IsController es s controller_stopped p c h =
    let (k, q, r) = >>=-eq-ok (known es p.event_id) _ h in
    subst (IsController es) (ok-eq _ refl r) (stopped-IsController es s _ c)
replay_entry-IsController es s controller_failed p c h =
    let (k, q, r) = >>=-eq-ok (known es p.event_id) _ h in
    subst (IsController es) (ok-eq _ refl r) (stopped-IsController es s _ c)
replay_entry-IsController es s other p c h = subst (IsController es) (ok-eq _ refl h) c

pub replay_from-IsController :
    (es : List ScriptEvent) (s : ControllerState) (log : List Entry) {t : ControllerState}
    → IsController es s
    → replay_from es s log ≡ ok t
    → IsController es t
unfolding replay_from
replay_from-IsController es s [] c h = subst (IsController es) (ok-eq _ refl h) c
replay_from-IsController es s (r ∷ rs) c h =
    let (t, p, q) = >>=-eq-ok (replay_entry es s r.kind r.payload) _ h in
    replay_from-IsController es t rs (replay_entry-IsController es s r.kind r.payload c p) q

-- The last check of `replay_controller` never fires: what its loop accepts, it returns.
pub replay_controller-replay_from :
    (es : List ScriptEvent) (log : List Entry) {t : ControllerState}
    → replay_from es fresh log ≡ ok t
    → replay_controller es log ≡ ok t
unfolding replay_controller
replay_controller-replay_from es log h =
    let c = replay_from-IsController es fresh log (fresh-IsController es) h in
    ground (arith, h, c.position)

pub replay_from-replay_controller :
    (es : List ScriptEvent) (log : List Entry) {t : ControllerState}
    → replay_controller es log ≡ ok t
    → replay_from es fresh log ≡ ok t
unfolding replay_controller
replay_from-replay_controller es log h =
    let (s, p, q) = >>=-eq-ok (replay_from es fresh log) _ h in ground (arith, p)

-- The state of any log that replays: its position is in the script, the pending event stands
-- there and was requested, and only a requested event counts as sent.
pub replay_controller-IsController :
    (es : List ScriptEvent) (log : List Entry) (s : ControllerState)
    → replay_controller es log ≡ ok s
    → IsController es s
replay_controller-IsController es log s h =
    replay_from-IsController es fresh log (fresh-IsController es)
      (replay_from-replay_controller es log h)
