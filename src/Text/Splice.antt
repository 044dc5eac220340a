-- ===== src/Text/Splice.antt =====
-- What `str.replace(old, new, 1)` does where `old` occurs.
use mathlib.Core.List.{append-nil}
use playbook_harness.Base.{
  ◌≡◌, ℕ, suc, zero, refl, sym, ap, true, false, some, [], ◌∷◌, ◌++◌, arith, length, drop,
  Bool-cases, ◌==◌, Option-cases, inl, inr, ==_iff,
}
use playbook_harness.Text.{Text, after_prefix, starts_with}
use playbook_harness.Text.Edit.{replace_first, count, count_from}
use playbook_harness.Text.Bare.{contains}

-- One occurrence of `old` in `text` is `new` in `result`, and all around it is as it was.
pub record IsSplice (old new text result : Text) : Type 0 where
  pub before : Text
  pub after : Text
  pub found : text ≡ before ++ old ++ after
  pub spliced : result ≡ before ++ new ++ after

pub after_prefix-append :
    (p t : Text) {rest : Text}
    → after_prefix p t ≡ some rest
    → (t ≡ p ++ rest) × (drop (length p) t ≡ rest)
unfolding after_prefix
after_prefix-append [] t h = ground arith
after_prefix-append (c ∷ p) [] h = cc
after_prefix-append (c ∷ p) (d ∷ t) {rest} h =
    ground (arith, after_prefix-append p t {rest = rest}, ==_iff d c)

pub starts_with-append : (p t : Text) → starts_with p t ≡ true → t ≡ p ++ drop (length p) t
unfolding starts_with
starts_with-append p t h = elim (Option-cases (after_prefix p t)) [
  | inl e ↦ ground arith
  | inr (rest, e) ↦ let k = after_prefix-append p t {rest = rest} e in rw k.1 k.0
]

pub replace_first-IsSplice :
    (old new t : Text) → contains old t ≡ true → IsSplice old new t (replace_first old new t)
unfolding replace_first contains
replace_first-IsSplice [] new [] h = record {
  before = [];
  after = [];
  found = refl;
  spliced = sym (append-nil new);
}
replace_first-IsSplice (o ∷ old) new [] h = cc
replace_first-IsSplice old new (c ∷ t) h = elim (Bool-cases (starts_with old (c ∷ t))) [
  | inl e ↦ record {
    before = [];
    after = drop (length old) (c ∷ t);
    found = starts_with-append old (c ∷ t) e;
    spliced = rw e refl;
  }
  | inr e ↦
      let r = replace_first-IsSplice old new t (ground arith) in
      record {
        before = c ∷ r.before;
        after = r.after;
        found = ap (◌∷◌ c) r.found;
        spliced = rw e (ap (◌∷◌ c) r.spliced);
      }
]

-- What occurs before the skipped characters end occurs in the whole.
count_from-contains :
    (skip : ℕ) (old t : Text) → (count_from skip old t == 0) ≡ false → contains old t ≡ true
unfolding count_from contains
count_from-contains skip old [] h = ground arith
count_from-contains (suc skip) old (c ∷ t) h = ground (arith, count_from-contains skip old t)
count_from-contains zero old (c ∷ t) h = elim (Bool-cases (starts_with old (c ∷ t))) [
  | inl e ↦ ground arith
  | inr e ↦ rw e (count_from-contains 0 old t (ground arith))
]

pub count-contains :
    (o : ℕ) (old t : Text) → (count (o ∷ old) t == 0) ≡ false → contains (o ∷ old) t ≡ true
unfolding count
count-contains o old t h = count_from-contains 0 (o ∷ old) t h

after_prefix-shorter :
    (p s t : Text) {rest : Text}
    → after_prefix (p ++ s) t ≡ some rest
    → after_prefix p t ≡ some (drop (length p) t)
unfolding after_prefix
after_prefix-shorter [] s t h = refl
after_prefix-shorter (c ∷ p) s [] h = cc
after_prefix-shorter (c ∷ p) s (d ∷ t) {rest} h =
    ground (arith, after_prefix-shorter p s t {rest = rest})

starts_with-shorter : (p s t : Text) → starts_with (p ++ s) t ≡ true → starts_with p t ≡ true
unfolding starts_with
starts_with-shorter p s t h = elim (Option-cases (after_prefix (p ++ s) t)) [
  | inl e ↦ ground arith
  | inr (rest, e) ↦ ground (arith, after_prefix-shorter p s t {rest = rest} e)
]

-- A text that holds a longer part holds the beginning of the part.
pub contains-shorter : (p s t : Text) → contains (p ++ s) t ≡ true → contains p t ≡ true
unfolding contains
contains-shorter [] s [] h = refl
contains-shorter (c ∷ p) s [] h = cc
contains-shorter p s (c ∷ t) h =
    ground (arith, starts_with-shorter p s (c ∷ t), contains-shorter p s t)
