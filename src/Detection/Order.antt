-- ===== src/Detection/Order.antt =====
-- Versions as sequences that end in zeros.
use playbook_harness.Base.{
  ℕ, zero, suc, ◌≡◌, ◌<◌, refl, sym, ap, subst, ◌∙◌, Option-cases, ◌⊎◌, inl, inr, Bool, true, false,
  some, [], ◌∷◌, arith, ◌==◌, ltb, Bool-cases,
}
use playbook_harness.Text.{Text}
use playbook_harness.Detection.{
  Version, version_at_least, parse_version, Probe, no_executable, not_run, answered, killed_by,
  detect, supported,
}

-- The part of a version at a place.
abbrev pub part : Version → ℕ → ℕ
part [] i = 0
part (a ∷ v) zero = a
part (a ∷ v) (suc i) = part v i

-- The first place where the versions differ has the larger part on the left.
pub record IsAbove (v w : Version) : Type 0 where
  pub place : ℕ
  pub larger : part w place < part v place
  pub before : (i : ℕ) → i < place → part v i ≡ part w i

abbrev pub AtLeast : Version → Version → Type 0
AtLeast v w = ((i : ℕ) → part v i ≡ part w i) ⊎ IsAbove v w

-- The other order, of versions that differ.
abbrev pub Compared : Version → Version → Bool → Type 0
Compared v w true = AtLeast v w
Compared v w false = IsAbove w v

same-cons :
    (v w v' w' : Version) (n : ℕ)
    → part v 0 ≡ part w 0
    → ((i : ℕ) → part v (suc i) ≡ part v' i)
    → ((i : ℕ) → part w (suc i) ≡ part w' i)
    → ((i : ℕ) → i < n → part v' i ≡ part w' i)
    → (i : ℕ) → i < suc n
    → part v i ≡ part w i
same-cons v w v' w' n h p q k zero l = h
same-cons v w v' w' n h p q k (suc i) l = p i ∙ k i (omega (arith, l)) ∙ sym (q i)

same-all :
    (v w v' w' : Version)
    → part v 0 ≡ part w 0
    → ((i : ℕ) → part v (suc i) ≡ part v' i)
    → ((i : ℕ) → part w (suc i) ≡ part w' i)
    → ((i : ℕ) → part v' i ≡ part w' i)
    → (i : ℕ) → part v i ≡ part w i
same-all v w v' w' h p q k zero = h
same-all v w v' w' h p q k (suc i) = p i ∙ k i ∙ sym (q i)

-- Versions whose first parts are equal compare as the rest does.
IsAbove-cons :
    (v w v' w' : Version)
    → part v 0 ≡ part w 0
    → ((i : ℕ) → part v (suc i) ≡ part v' i)
    → ((i : ℕ) → part w (suc i) ≡ part w' i)
    → IsAbove v' w'
    → IsAbove v w
IsAbove-cons v w v' w' h p q u = record {
  place = suc u.place;
  larger = omega (arith, u.larger, p u.place, q u.place);
  before = same-cons v w v' w' u.place h p q u.before;
}

Compared-cons :
    (v w v' w' : Version) (b : Bool)
    → part v 0 ≡ part w 0
    → ((i : ℕ) → part v (suc i) ≡ part v' i)
    → ((i : ℕ) → part w (suc i) ≡ part w' i)
    → Compared v' w' b
    → Compared v w b
Compared-cons v w v' w' true h p q (inl k) = inl (same-all v w v' w' h p q k)
Compared-cons v w v' w' true h p q (inr u) = inr (IsAbove-cons v w v' w' h p q u)
Compared-cons v w v' w' false h p q u = IsAbove-cons w v w' v' (sym h) q p u

-- The first parts differ.
Above-first : (v w : Version) → part w 0 < part v 0 → IsAbove v w
Above-first v w h = record { place = 0; larger = h; before = λ i l. absurd (omega (arith, l)) }

-- The comparison of two versions is that of their parts at the first place where they differ, where a
-- version that ends has zeros: it is true exactly if they differ nowhere or the left one is larger
-- there, and false if the right one is.
pub version_at_least-Compared : (v w : Version) → Compared v w (version_at_least v w)
unfolding version_at_least
version_at_least-Compared [] [] = inl (λ i. refl)
version_at_least-Compared (a ∷ v) [] = elim (Bool-cases (a == 0)) [
  | inl e ↦ rw e (
      Compared-cons (a ∷ v) [] v [] (version_at_least v []) (ground arith) (λ i. refl) (λ i. refl)
        (version_at_least-Compared v []))
  | inr e ↦ rw e (inr (Above-first (a ∷ v) [] (ground arith)))
]
version_at_least-Compared [] (b ∷ w) = elim (Bool-cases (b == 0)) [
  | inl e ↦ rw e (
      Compared-cons [] (b ∷ w) [] w (version_at_least [] w) (ground arith) (λ i. refl) (λ i. refl)
        (version_at_least-Compared [] w))
  | inr e ↦ rw e (Above-first (b ∷ w) [] (ground arith))
]
version_at_least-Compared (a ∷ v) (b ∷ w) = elim (Bool-cases (a == b)) [
  | inl e ↦ rw e (
      Compared-cons (a ∷ v) (b ∷ w) v w (version_at_least v w) (ground arith) (λ i. refl)
        (λ i. refl) (version_at_least-Compared v w))
  | inr e ↦ elim (Bool-cases (ltb b a)) [
    | inl f ↦ rw (e, f) (inr (Above-first (a ∷ v) (b ∷ w) (ground arith)))
    | inr f ↦ rw (e, f) (Above-first (b ∷ w) (a ∷ v) (ground arith))
  ]
]

-- A provider is supported only where its command exits with 0 and prints a version that is at least the
-- minimum.
pub detect-supported :
    (minimum : Version) (p : Probe)
    → detect minimum p ≡ supported
    → (output : Text) × (v : Version) × (p ≡ answered 0 output)
      × (parse_version output ≡ some v)
      × Compared v minimum true
unfolding detect
detect-supported minimum no_executable h = absurd (ground arith)
detect-supported minimum not_run h = absurd (ground arith)
detect-supported minimum (killed_by signal output) h = absurd (ground arith)
detect-supported minimum (answered code output) h = elim (Option-cases (parse_version output)) [
  | inl e ↦ absurd (ground (arith, e))
  | inr (v, e) ↦
      let k : (code ≡ 0) × (version_at_least v minimum ≡ true) =
        (ground (arith, e), ground (arith, e)) in
      (
        output,
        v,
        ap (λ c. answered c output) k.0,
        e,
        subst (Compared v minimum) k.1 (version_at_least-Compared v minimum),
      )
]
