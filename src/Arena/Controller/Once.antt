-- ===== src/Arena/Controller/Once.antt =====
-- The script is delivered in its order, and no event of it twice.
use playbook_harness.Base.{
  ℕ, ◌+◌, ◌≤◌, ◌≡◌, refl, true, not, ◌&&◌, Option, none, some, List, [], ◌∷◌, ◌==◌, if◌then◌else◌,
  ok, ltb, arith, >>=-eq-ok, Option-cases, Bool-cases, inl, inr, some-eq, sym, ap, ◌∙◌,
}
use playbook_harness.Text.{Text, text_eq, text_eq_iff}
use playbook_harness.Arena.Controller.{
  ScriptEvent, Kind, delivery_requested, delivery_sent, delivery_acknowledged, script_event_skipped,
  controller_stopped, controller_failed, other, Payload, Entry, ControllerState, fresh, index_from,
  known, is_none, request, replay_entry, replay_from, replay_controller,
}
use playbook_harness.Arena.Controller.Invariant.{known-at, replay_from-replay_controller}

-- How often the log asks for the delivery of an event.
abbrev asks : Text → Kind → Option Text → ℕ
asks id delivery_requested (some j) = if text_eq j id then 1 else 0
asks id _ _ = 0

unfoldable pub requests_of : Text → List Entry → ℕ
requests_of id [] = 0
requests_of id (r ∷ rs) = asks id r.kind r.payload.event_id + requests_of id rs

-- How often the event at an index can still be asked for.
abbrev left_for : ℕ → ControllerState → ℕ
left_for i s =
    if ltb i s.next_index
    then 0
    else if i == s.next_index && not (is_none s.pending_event_id)
    then 0
    else 1

module _ (es : List ScriptEvent) (id : Text) (i : ℕ) (n : index_from 0 es id ≡ some i) where
  request-left :
      (s : ControllerState) (j : Text) (k : ℕ) {t : ControllerState}
      → (text_eq j id ≡ true → k ≡ i)
      → request s (j, k) ≡ ok t
      → asks id delivery_requested (some j) + left_for i t ≤ left_for i s
  request-left s j k {t} m h = ground arith

  replay_entry-left :
      (s : ControllerState) (k : Kind) (p : Payload) {t : ControllerState}
      → replay_entry es s k p ≡ ok t
      → asks id k p.event_id + left_for i t ≤ left_for i s
  unfolding replay_entry
  replay_entry-left s delivery_requested p {t} h =
      let ((j, k), q, r) = >>=-eq-ok (known es p.event_id) _ h in
      let (o, m) = known-at es p.event_id {id = j} {i = k} q in
      let same : text_eq j id ≡ true → k ≡ i =
        λ e. some-eq (sym m ∙ ap (index_from 0 es) ((text_eq_iff j id).0 e) ∙ n) in
      rw o (request-left s j k {t = t} same r)
  replay_entry-left s delivery_sent p h =
      let (k, q, r) = >>=-eq-ok (known es p.event_id) _ h in ground arith
  replay_entry-left s delivery_acknowledged p h =
      let (k, q, r) = >>=-eq-ok (known es p.event_id) _ h in ground arith
  replay_entry-left s script_event_skipped p h =
      let (k, q, r) = >>=-eq-ok (known es p.event_id) _ h in ground arith
  replay_entry-left s controller_stopped p h =
      let (k, q, r) = >>=-eq-ok (known es p.event_id) _ h in ground arith
  replay_entry-left s controller_failed p h =
      let (k, q, r) = >>=-eq-ok (known es p.event_id) _ h in ground arith
  replay_entry-left s other p h = ground arith

  replay_from-left :
      (s : ControllerState) (log : List Entry) {t : ControllerState}
      → replay_from es s log ≡ ok t
      → requests_of id log + left_for i t ≤ left_for i s
  unfolding replay_from requests_of
  replay_from-left s [] h = ground arith
  replay_from-left s (r ∷ rs) {t} h =
      let (u, p, q) = >>=-eq-ok (replay_entry es s r.kind r.payload) _ h in
      let a = replay_entry-left s r.kind r.payload {t = u} p in
      let b = replay_from-left u rs {t = t} q in omega (arith, a, b)

-- An event that is not in the script is never asked for.
module _ (es : List ScriptEvent) (id : Text) (n : index_from 0 es id ≡ none) where
  replay_entry-unknown :
      (s : ControllerState) (k : Kind) (p : Payload) {t : ControllerState}
      → replay_entry es s k p ≡ ok t
      → asks id k p.event_id ≡ 0
  unfolding replay_entry
  replay_entry-unknown s delivery_requested p h =
      let ((j, k), q, r) = >>=-eq-ok (known es p.event_id) _ h in
      let (o, m) = known-at es p.event_id {id = j} {i = k} q in
      elim (Bool-cases (text_eq j id)) [
        | inr e ↦ rw (o, e) refl
        | inl e ↦
            let c : some k ≡ none = sym m ∙ ap (index_from 0 es) ((text_eq_iff j id).0 e) ∙ n in cc
      ]
  replay_entry-unknown s delivery_sent p h = refl
  replay_entry-unknown s delivery_acknowledged p h = refl
  replay_entry-unknown s script_event_skipped p h = refl
  replay_entry-unknown s controller_stopped p h = refl
  replay_entry-unknown s controller_failed p h = refl
  replay_entry-unknown s other p h = refl

  replay_from-unknown :
      (s : ControllerState) (log : List Entry) {t : ControllerState}
      → replay_from es s log ≡ ok t
      → requests_of id log ≡ 0
  unfolding replay_from requests_of
  replay_from-unknown s [] h = refl
  replay_from-unknown s (r ∷ rs) {t} h =
      let (u, p, q) = >>=-eq-ok (replay_entry es s r.kind r.payload) _ h in
      omega (
        arith,
        replay_entry-unknown s r.kind r.payload {t = u} p,
        replay_from-unknown u rs {t = t} q,
      )

-- Whatever the script and the id: a log that replays asks at most once for the delivery of the id.
pub replay_controller-delivers_once :
    (es : List ScriptEvent) (log : List Entry) (id : Text) (s : ControllerState)
    → replay_controller es log ≡ ok s
    → requests_of id log ≤ 1
replay_controller-delivers_once es log id s h =
    let k = replay_from-replay_controller es log h in
    elim (Option-cases (index_from 0 es id)) [
      | inl n ↦ omega (arith, replay_from-unknown es id n fresh log k)
      | inr (i, n) ↦ let l = replay_from-left es id i n fresh log k in ground (arith, l)
    ]
