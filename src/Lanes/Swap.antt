-- ===== src/Lanes/Swap.antt =====
-- Two controllers of one lane: a change that advances the generation wins once, and of two
-- bindings to different conversations the second is refused.
use playbook_harness.Base.{
  ℕ, suc, ◌≡◌, refl, sym, ◌∙◌, ap, Bool, true, false, some, arith, inl, inr, Result, ok, err,
  Result-cases, some-eq, ok-eq,
}
use playbook_harness.Text.{Text, text_eq, text_eq_refl}
use playbook_harness.Identity.{SessionKey, key_eq}
use playbook_harness.Lanes.{LaneError, Lane, Files, lane_of, write_lane}
use playbook_harness.Lanes.Validate.{validate_body_id}
use playbook_harness.Lanes.Create.{Step, saved}
use playbook_harness.Lanes.Transition.{
  Change, swapped, transition_managed_lane, bind, finalize_lane_binding,
}
use playbook_harness.Lanes.Store.{lane_of-write_lane}
use playbook_harness.Lanes.Names.{transition-swapped}

swapped-generation :
    (is_timestamp : Text → Bool) (l : Lane) (c : Change) (now : Text) {m : Lane}
    → c.advance_generation ≡ true
    → swapped is_timestamp l c now ≡ ok m
    → m.generation ≡ suc l.generation
unfolding swapped
swapped-generation is_timestamp l c now {m} a h = ground arith

swapped-late :
    (is_timestamp : Text → Bool) (m : Lane) (c : Change) (now : Text) {g : ℕ} {n : Lane}
    → c.expected_generation ≡ some g
    → m.generation ≡ suc g
    → swapped is_timestamp m c now ≡ ok n
    → ⊥
unfolding swapped
swapped-late is_timestamp m c now {g} {n} e q h = ground arith

-- A change that is refused, and writes nothing.
abbrev pub Refused : Step → Files → Type 0
Refused r files = (e : LaneError) × (r ≡ (err e, files))

saved-Refused :
    (body : Text) (files : Files) (r : Result LaneError Lane)
    → ((n : Lane) → r ≡ ok n → ⊥)
    → Refused (saved body files r) files
saved-Refused body files (err e) h = (e, refl)
saved-Refused body files (ok n) h = ground (arith, h n)

saved-ok :
    (body : Text) (files : Files) (r : Result LaneError Lane) {m : Lane}
    → (saved body files r).0 ≡ ok m
    → (r ≡ ok m) × ((saved body files r).1 ≡ write_lane body m files)
saved-ok body files (err e) h = cc
saved-ok body files (ok n) {m} h = (h, ap (λ x. write_lane body x files) (ok-eq _ refl h))

-- Of all changes that expect the generation that a lane has, at most one that advances it
-- succeeds: behind it each other is refused and writes nothing. Another lane stays as it was.
pub transition_managed_lane-wins_once :
    (is_timestamp : Text → Bool) (body : Text) (c : Change) (now : Text) (files : Files)
    (l m : Lane) (d : Change) (later other : Text)
    → lane_of body files ≡ some l
    → c.advance_generation ≡ true
    → (transition_managed_lane is_timestamp body c now files).0 ≡ ok m
    → d.expected_generation ≡ some l.generation
    → text_eq body other ≡ false
    → Refused
        (transition_managed_lane is_timestamp body d later
          (transition_managed_lane is_timestamp body c now files).1)
        (transition_managed_lane is_timestamp body c now files).1
      × (lane_of other (transition_managed_lane is_timestamp body c now files).1
          ≡ lane_of other files)
unfolding transition_managed_lane
transition_managed_lane-wins_once is_timestamp body c now files l m d later other n a h e o =
    let (p, w) = saved-ok body files _ {m = m} h in
    let (k, q, s) = transition-swapped is_timestamp body c now (lane_of body files) {m = m} p in
    let kl : k ≡ l = some-eq (sym q ∙ n) in
    let g : m.generation ≡ suc l.generation =
      swapped-generation is_timestamp k c now {m = m} a s
      ∙ ap (λ (x : Lane). suc x.generation) kl in
    let here : lane_of body (write_lane body m files) ≡ some m =
      lane_of-write_lane body body m files ∙ rw (text_eq_refl body) refl in
    rw w (
      saved-Refused body (write_lane body m files) _ (λ x r.
          let (y, t, u) = transition-swapped is_timestamp body d later _ {m = x} r in
          swapped-late is_timestamp y d later {n = x} e
            (ap (λ (z : Lane). z.generation) (some-eq (sym t ∙ here)) ∙ g) u),
      lane_of-write_lane body other m files ∙ rw o refl,
    )

bind-other :
    (is_timestamp : Text → Bool) (l : Lane) (key : SessionKey) (now p s : Text) {m : Lane}
    → l.provider ≡ some p
    → l.session_id ≡ some s
    → key_eq (record { provider = p; session_id = s }) key ≡ false
    → bind is_timestamp l key now ≡ ok m
    → ⊥
unfolding bind key_eq
bind-other is_timestamp l key now p s {m} a b d h = ground (arith, a, b)

finalize_lane_binding-bound :
    (is_timestamp : Text → Bool) (body : Text) (key : SessionKey) (now : Text) (files : Files)
    (l : Lane) (p s : Text)
    → lane_of body files ≡ some l
    → l.provider ≡ some p
    → l.session_id ≡ some s
    → key_eq (record { provider = p; session_id = s }) key ≡ false
    → (e : LaneError) × (finalize_lane_binding is_timestamp body key now files ≡ (err e, files))
unfolding finalize_lane_binding
finalize_lane_binding-bound is_timestamp body key now files l p s n a b d =
    elim (Result-cases (validate_body_id body)) [
      | inl (e, q) ↦ (e, rw q refl)
      | inr (u, q) ↦ elim (Result-cases (bind is_timestamp l key now)) [
        | inl (e, r) ↦ (e, rw (q, n, r) refl)
        | inr (m, r) ↦ ground (arith, bind-other is_timestamp l key now p s {m = m} a b d r)
      ]
    ]

bind-names :
    (is_timestamp : Text → Bool) (l : Lane) (key : SessionKey) (now : Text) {m : Lane}
    → bind is_timestamp l key now ≡ ok m
    → (m.provider ≡ some key.provider) × (m.session_id ≡ some key.session_id)
unfolding bind
bind-names is_timestamp l key now h = ground arith

-- What a binding that succeeded leaves.
bound-lane :
    (is_timestamp : Text → Bool) (body : Text) (key : SessionKey) (now : Text) (files : Files)
    (l : Lane)
    → lane_of body files ≡ some l
    → (finalize_lane_binding is_timestamp body key now files).0 ≡ ok tt
    → (m : Lane) × (lane_of body (finalize_lane_binding is_timestamp body key now files).1 ≡ some m)
      × (m.provider ≡ some key.provider)
      × (m.session_id ≡ some key.session_id)
unfolding finalize_lane_binding
bound-lane is_timestamp body key now files l n h = elim (Result-cases (validate_body_id body)) [
  | inl (e, q) ↦ absurd (ground (arith, q))
  | inr (u, q) ↦ elim (Result-cases (bind is_timestamp l key now)) [
    | inl (e, r) ↦ absurd (ground (arith, q, n, r))
    | inr (m, r) ↦
        let (p, i) = bind-names is_timestamp l key now {m = m} r in
        (m, rw (q, n, r) (lane_of-write_lane body body m files ∙ rw (text_eq_refl body) refl), p, i)
  ]
]

-- Behind a call of `_finalize_lane_binding_locked` that bound the lane of a body to one conversation,
-- the next call of it, for another conversation on the files so left, is refused and writes nothing.
pub finalize_lane_binding-binds_once :
    (is_timestamp : Text → Bool) (body : Text) (key other : SessionKey) (now later : Text)
    (files : Files) (l : Lane)
    → lane_of body files ≡ some l
    → (finalize_lane_binding is_timestamp body key now files).0 ≡ ok tt
    → key_eq key other ≡ false
    → (e : LaneError) × (finalize_lane_binding is_timestamp body other later
          (finalize_lane_binding is_timestamp body key now files).1
        ≡ (err e, (finalize_lane_binding is_timestamp body key now files).1))
finalize_lane_binding-binds_once is_timestamp body key other now later files l n h d =
    let (m, k, p, s) = bound-lane is_timestamp body key now files l n h in
    finalize_lane_binding-bound is_timestamp body other later
      (finalize_lane_binding is_timestamp body key now files).1 m key.provider key.session_id k p s
      d
