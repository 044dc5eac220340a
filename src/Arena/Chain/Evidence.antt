-- ===== src/Arena/Chain/Evidence.antt =====
-- The snapshot fixes the log: where no two events have one hash, a log that can be verified cannot be
-- exchanged for another with the same last number and the same last hash.
use playbook_harness.Base.{
  ℕ, suc, ◌+◌, ◌≡◌, refl, sym, subst, ◌∙◌, ap, some, List, [], ◌∷◌, ok, >>=-eq-ok, arith, ok-eq,
  length,
}
use playbook_harness.Text.{Text, text_eq_iff}
use playbook_harness.Arena.Chain.{
  Fields, Event, Verified, check_event, verify_from, next_link, verify, zero_hash,
}
use playbook_harness.Arena.Chain.Appended.{check_event-sequence, next_link-step}

module _ {Payload : Type 0} (digest : Fields Payload → Text)
    (collision_free : (a b : Fields Payload) → digest a ≡ digest b → a ≡ b) where
  record IsLinked (n : ℕ) (p : Text) (e : Event Payload) (v : Verified Payload) : Type 0 where
    pub previous : e.fields.previous_hash ≡ p
    pub hashed : e.hash ≡ digest e.fields
    pub returned : v.hash ≡ e.hash

  check_event-IsLinked :
      (n : ℕ) (p : Text) (e : Event Payload) {v : Verified Payload}
      → check_event digest n p e ≡ ok v
      → IsLinked n p e v
  unfolding check_event
  check_event-IsLinked n p e h =
      ground (arith, text_eq_iff e.fields.previous_hash p, text_eq_iff e.hash (digest e.fields))

  event-eq : (a b : Event Payload) → a.fields ≡ b.fields → a.hash ≡ b.hash → a ≡ b
  event-eq a b h k = cc

  verify_from-count :
      (n : ℕ) (p : Text) (es : List (Event Payload)) {vs : List (Verified Payload)}
      → verify_from digest n p es ≡ ok vs
      → (next_link n p vs).0 ≡ n + length es
  unfolding verify_from
  verify_from-count n p [] {vs} h =
      subst (λ (xs : List (Verified Payload)). (next_link n p xs).0 ≡ n + 0) (ok-eq _ refl h)
        (omega arith)
  verify_from-count n p (e ∷ es) {vs} h =
      let (v, q, r) = >>=-eq-ok (check_event digest n p e) _ h in
      let (xs, s, t) = >>=-eq-ok (verify_from digest (suc n) v.hash es) _ r in
      let i = verify_from-count (suc n) v.hash es {vs = xs} s in
      let k = next_link-step digest n p v xs (check_event-sequence digest n p e {v = v} q) in
      subst (λ (ys : List (Verified Payload)). (next_link n p ys).0 ≡ n + suc (length es))
        (ok-eq _ refl t) (ap (λ (x : ℕ × Text). x.0) k ∙ omega (arith, i))

  same_event :
      (n : ℕ) (p q : Text) (e f : Event Payload) (es fs : List (Event Payload))
      (v w : Verified Payload)
      → IsLinked n p e v
      → IsLinked n q f w
      → v.hash ≡ w.hash
      → es ≡ fs
      → (p ≡ q) × (e ∷ es ≡ f ∷ fs)
  same_event n p q e f es fs v w a b h t =
      let k : e.hash ≡ f.hash = sym a.returned ∙ h ∙ b.returned in
      let c : e.fields ≡ f.fields =
        collision_free e.fields f.fields (sym a.hashed ∙ k ∙ b.hashed) in
      (
        sym a.previous ∙ ap (λ (x : Fields Payload). x.previous_hash) c ∙ b.previous,
        cc (event-eq e f c k, t),
      )

  same_link :
      (n : ℕ) (p q : Text) (es fs : List (Event Payload)) (vs ws : List (Verified Payload))
      → verify_from digest n p es ≡ ok vs
      → verify_from digest n q fs ≡ ok ws
      → next_link n p vs ≡ next_link n q ws
      → (p ≡ q) × (es ≡ fs)
  unfolding verify_from
  same_link n p q [] [] vs ws h k l =
      let a : next_link {Payload = Payload} n p [] ≡ next_link n p vs =
        ap (next_link {Payload = Payload} n p) (ok-eq _ refl h) in
      let b : next_link {Payload = Payload} n q [] ≡ next_link n q ws =
        ap (next_link {Payload = Payload} n q) (ok-eq _ refl k) in
      (ap (λ (x : ℕ × Text). x.1) (a ∙ l ∙ sym b), refl)
  same_link n p q [] (f ∷ fs) vs ws h k l = ground (
    arith,
    verify_from-count n p [] {vs = vs} h,
    verify_from-count n q (f ∷ fs) {vs = ws} k,
    ap (λ (x : ℕ × Text). x.0) l,
  )
  same_link n p q (e ∷ es) [] vs ws h k l = ground (
    arith,
    verify_from-count n p (e ∷ es) {vs = vs} h,
    verify_from-count n q [] {vs = ws} k,
    ap (λ (x : ℕ × Text). x.0) l,
  )
  same_link n p q (e ∷ es) (f ∷ fs) vs ws h k l =
      let (v, a, r) = >>=-eq-ok (check_event digest n p e) _ h in
      let (xs, s, t) = >>=-eq-ok (verify_from digest (suc n) v.hash es) _ r in
      let (w, b, r') = >>=-eq-ok (check_event digest n q f) _ k in
      let (ys, s', t') = >>=-eq-ok (verify_from digest (suc n) w.hash fs) _ r' in
      let c = next_link-step digest n p v xs (check_event-sequence digest n p e {v = v} a) in
      let d = next_link-step digest n q w ys (check_event-sequence digest n q f {v = w} b) in
      let m : next_link n p (v ∷ xs) ≡ next_link n q (w ∷ ys) =
        ap (next_link {Payload = Payload} n p) (ok-eq _ refl t)
        ∙ l
        ∙ sym (ap (next_link {Payload = Payload} n q) (ok-eq _ refl t')) in
      let i = same_link (suc n) v.hash w.hash es fs xs ys s s' (sym c ∙ m ∙ d) in
      same_event n p q e f es fs v w (check_event-IsLinked n p e {v = v} a)
        (check_event-IsLinked n q f {v = w} b) i.0 i.1

  -- Two logs that can be verified and end with one number and one hash are one log.
  pub verify-tamper_evident :
      (es fs : List (Event Payload)) (vs ws : List (Verified Payload))
      → verify digest (some es) ≡ ok vs
      → verify digest (some fs) ≡ ok ws
      → next_link 1 zero_hash vs ≡ next_link 1 zero_hash ws
      → es ≡ fs
  unfolding verify
  verify-tamper_evident [] fs vs ws h k l = cc
  verify-tamper_evident (e ∷ es) [] vs ws h k l = cc
  verify-tamper_evident (e ∷ es) (f ∷ fs) vs ws h k l =
      (same_link 1 zero_hash zero_hash (e ∷ es) (f ∷ fs) vs ws h k l).1
