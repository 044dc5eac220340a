-- ===== src/Arena/Chain/Appended.antt =====
-- What `append` writes can be verified and resumed.
use playbook_harness.Base.{
  ℕ, suc, ◌≡◌, refl, sym, subst, ◌∙◌, ap, true, false, Option, none, some, List, [], ◌∷◌, ◌++◌,
  Result, ok, >>=-eq-ok, is_empty, arith, ok-eq, ==_refl,
}
use playbook_harness.Text.{Text, text_eq_refl}
use playbook_harness.Arena.Chain.{
  StoreError, Fields, Event, Verified, RunFiles, zero_hash, verified_event, to_snapshot, last_of,
  next_link, lines_of, agrees, check_event, verify_from, verify, link_of, make_fields, make_event,
  append, check_resumable,
}

module _ {Payload : Type 0} (digest : Fields Payload → Text) where
  pub check_event-sequence :
      (n : ℕ) (p : Text) (e : Event Payload) {v : Verified Payload}
      → check_event digest n p e ≡ ok v
      → v.sequence ≡ n
  unfolding check_event
  check_event-sequence n p e h = ground arith

  check_event-made :
      (link : ℕ × Text) (time type : Text) (payload : Payload)
      → is_empty type ≡ false
      → check_event digest link.0 link.1 (make_event digest link time type payload)
        ≡ ok (verified_event (make_event digest link time type payload))
  unfolding check_event
  check_event-made (n, p) time type payload h =
      rw
        (
          ==_refl n,
          text_eq_refl p,
          h,
          text_eq_refl (digest (make_fields digest (n, p) time type payload)),
        )
        refl

  pub next_link-step :
      (n : ℕ) (p : Text) (v : Verified Payload) (vs : List (Verified Payload))
      → v.sequence ≡ n
      → next_link n p (v ∷ vs) ≡ next_link (suc n) v.hash vs
  next_link-step n p v [] h = ap (λ (x : ℕ). (x, v.hash)) (omega (arith, h))
  next_link-step n p v (w ∷ vs) h = refl

  verify_from-append :
      (n : ℕ) (p : Text) (es : List (Event Payload)) (e : Event Payload)
      {vs : List (Verified Payload)} {v : Verified Payload}
      → verify_from digest n p es ≡ ok vs
      → check_event digest (next_link n p vs).0 (next_link n p vs).1 e ≡ ok v
      → verify_from digest n p (es ++ (e ∷ [])) ≡ ok (vs ++ (v ∷ []))
  unfolding verify_from
  verify_from-append n p [] e {vs} {v} h c =
      let z : [] ≡ vs = ok-eq _ refl h in
      let c' =
        subst (λ xs. check_event digest (next_link n p xs).0 (next_link n p xs).1 e ≡ ok v) (sym z)
          c in
      subst
        (λ (xs : List (Verified Payload)).
          verify_from digest n p ([] ++ (e ∷ [])) ≡ ok (xs ++ (v ∷ [])))
        z (rw c' refl)
  verify_from-append n p (f ∷ es) e {vs} {v} h c =
      let (w, q, r) = >>=-eq-ok (check_event digest n p f) _ h in
      let (ws, s, t) = >>=-eq-ok (verify_from digest (suc n) w.hash es) _ r in
      let z : w ∷ ws ≡ vs = ok-eq _ refl t in
      let c' =
        subst (λ xs. check_event digest (next_link n p xs).0 (next_link n p xs).1 e ≡ ok v) (sym z)
          c in
      let c'' =
        subst (λ (k : ℕ × Text). check_event digest k.0 k.1 e ≡ ok v)
          (next_link-step n p w ws (check_event-sequence n p f {v = w} q)) c' in
      let i = verify_from-append (suc n) w.hash es e {vs = ws} {v = v} s c'' in
      subst
        (λ (xs : List (Verified Payload)).
          verify_from digest n p ((f ∷ es) ++ (e ∷ [])) ≡ ok (xs ++ (v ∷ [])))
        z (rw (q, i) refl)

  last_of-append :
      (v : Verified Payload) (vs : List (Verified Payload)) (w : Verified Payload)
      → last_of v (vs ++ (w ∷ [])) ≡ w
  last_of-append v [] w = refl
  last_of-append v (u ∷ vs) w = last_of-append u vs w

  agrees-append :
      (vs : List (Verified Payload)) (v : Verified Payload) (state : Text)
      → agrees (some (to_snapshot v state)) (vs ++ (v ∷ [])) ≡ true
  agrees-append [] v state = rw (text_eq_refl v.hash, ==_refl v.sequence) refl
  agrees-append (u ∷ vs) v state =
      rw (last_of-append u vs v, text_eq_refl v.hash, ==_refl v.sequence) refl

  -- What the log of a run holds: nothing before the first event, and then what can be verified.
  abbrev pub events_of : Option (List (Event Payload)) → Result StoreError (List (Verified Payload))
  events_of none = ok []
  events_of (some es) = verify digest (some es)

  verify-nonempty :
      (es : List (Event Payload)) (e : Event Payload)
      → verify digest (some (es ++ (e ∷ []))) ≡ verify_from digest 1 zero_hash (es ++ (e ∷ []))
  unfolding verify
  verify-nonempty [] e = refl
  verify-nonempty (f ∷ es) e = refl

  events_of-verify_from :
      (o : Option (List (Event Payload))) {vs : List (Verified Payload)}
      → events_of o ≡ ok vs
      → (verify_from digest 1 zero_hash (lines_of o) ≡ ok vs)
        × (link_of digest o ≡ ok (next_link 1 zero_hash vs))
  unfolding verify verify_from
  events_of-verify_from none {vs} h =
      (h, ap (λ (xs : List (Verified Payload)). ok (next_link 1 zero_hash xs)) (ok-eq _ refl h))
  events_of-verify_from (some []) h = cc
  events_of-verify_from (some (e ∷ es)) h = (h, rw h refl)

  -- An event that is appended to a log which can be verified, or to none, is returned; then the log
  -- can be verified, with the events from before and this one, and the run can be resumed from the
  -- snapshot.
  pub append-resumable :
      (files : RunFiles Payload) (time type : Text) (payload : Payload) (state : Text)
      (vs : List (Verified Payload))
      → events_of files.events ≡ ok vs
      → is_empty type ≡ false
      → (v : Verified Payload) × ((append digest false files time type payload state).0 ≡ ok v)
        × (v.type ≡ type)
        × (v.payload ≡ payload)
        × (verify digest (append digest false files time type payload state).1.events
            ≡ ok (vs ++ (v ∷ [])))
        × (check_resumable digest (append digest false files time type payload state).1
            ≡ ok (vs ++ (v ∷ [])))
  unfolding append check_resumable
  append-resumable files time type payload state vs h t =
      let (f, k) = events_of-verify_from files.events {vs = vs} h in
      let link = next_link 1 zero_hash vs in
      let e = make_event digest link time type payload in
      let v = verified_event e in
      let made = check_event-made link time type payload t in
      let y : verify digest (some (lines_of files.events ++ (e ∷ []))) ≡ ok (vs ++ (v ∷ [])) =
        verify-nonempty (lines_of files.events) e
        ∙ verify_from-append 1 zero_hash (lines_of files.events) e {vs = vs} {v = v} f made in
      rw (t, k) (v, refl, refl, refl, y, rw (y, agrees-append vs v state) refl)
