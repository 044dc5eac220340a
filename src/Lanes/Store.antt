-- ===== src/Lanes/Store.antt =====
-- The files of a directory under `write_lane`.
use playbook_harness.Base.{
  ◌≡◌, refl, subst, Bool, false, not, ◌&&◌, Option, none, some, [], ◌∷◌, if◌then◌else◌, arith, All,
  Bool-cases, inl, inr,
}
use playbook_harness.Text.{Text, text_eq, text_eq_iff}
use playbook_harness.Lanes.{Lane, Files, lane_of, write_lane, is_destroyed}
use playbook_harness.Lanes.Create.{is_named}

pub lane_of-write_lane :
    (body other : Text) (l : Lane) (files : Files)
    → lane_of other (write_lane body l files)
      ≡ (if text_eq body other then some l else lane_of other files)
unfolding lane_of write_lane
lane_of-write_lane body other l [] = refl
lane_of-write_lane body other l ((k, m) ∷ files) = ground (
  arith,
  text_eq_iff k body,
  text_eq_iff k other,
  text_eq_iff body other,
  lane_of-write_lane body other l files,
)

unfoldable pub same_name : Option Text → Option Text → Bool
unfolding is_named
same_name (some n) m = is_named m n
same_name none m = false

-- Two live lanes with one name.
unfoldable pub clash : Lane → Lane → Bool
clash l m = not (is_destroyed l.state) && not (is_destroyed m.state) && same_name l.name m.name

abbrev pub Apart : Files → Type 0
Apart [] = Unit
Apart ((k, l) ∷ files) = All (λ f. clash l f.1 ≡ false) files × Apart files

same_name_sym : (a b : Option Text) → same_name a b ≡ same_name b a
unfolding same_name
same_name_sym (some n) (some m) = ground (arith, text_eq_iff n m, text_eq_iff m n)
same_name_sym (some n) none = refl
same_name_sym none (some m) = refl
same_name_sym none none = refl

pub clash-sym : (l m : Lane) → clash l m ≡ false → clash m l ≡ false
unfolding clash
clash-sym l m h = ground (arith, same_name_sym l.name m.name)

pub All-write_lane :
    (P : Lane → Type 0) (body : Text) (l : Lane) (files : Files)
    → P l
    → All (λ f. P f.1) files
    → All (λ f. P f.1) (write_lane body l files)
unfolding write_lane
All-write_lane P body l [] p a = (p, tt)
All-write_lane P body l ((k, m) ∷ files) p a = elim (Bool-cases (text_eq k body)) [
  | inl e ↦ rw e (p, a.1)
  | inr e ↦ rw e (a.0, All-write_lane P body l files p a.1)
]

pub All-lane_of :
    (P : Lane → Type 0) (body : Text) (files : Files) {l : Lane}
    → lane_of body files ≡ some l
    → All (λ f. P f.1) files
    → P l
unfolding lane_of
All-lane_of P body [] n a = cc
All-lane_of P body ((k, m) ∷ files) {l} n a = elim (Bool-cases (text_eq k body)) [
  | inl e ↦ let q : m ≡ l = ground (arith, e) in subst P q a.0
  | inr e ↦ All-lane_of P body files {l = l} (ground (arith, e)) a.1
]

All-kept :
    (m o : Lane) (files : Files)
    → ((f : Lane) → clash o f ≡ false → clash m f ≡ false)
    → All (λ f. clash o f.1 ≡ false) files
    → All (λ f. clash m f.1 ≡ false) files
All-kept m o [] c a = tt
All-kept m o ((k, f) ∷ files) c a = (c f a.0, All-kept m o files c a.1)

-- A lane that clashes with no other is added.
pub Apart-new :
    (body : Text) (l : Lane) (files : Files)
    → lane_of body files ≡ none
    → All (λ f. clash l f.1 ≡ false) files
    → Apart files
    → Apart (write_lane body l files)
unfolding write_lane lane_of
Apart-new body l [] n a d = (tt, tt)
Apart-new body l ((k, m) ∷ files) n a d = elim (Bool-cases (text_eq k body)) [
  | inl e ↦ ground (arith, e)
  | inr e ↦ rw e (
    All-write_lane (λ f. clash m f ≡ false) body l files (clash-sym l m a.0) d.0,
    Apart-new body l files (ground (arith, e)) a.1 d.1,
  )
]

-- A lane is replaced by one that clashes with no more.
pub Apart-replaced :
    (body : Text) (l m : Lane) (files : Files)
    → lane_of body files ≡ some l
    → ((f : Lane) → clash l f ≡ false → clash m f ≡ false)
    → Apart files
    → Apart (write_lane body m files)
unfolding write_lane lane_of
Apart-replaced body l m [] n c d = (tt, tt)
Apart-replaced body l m ((k, o) ∷ files) n c d = elim (Bool-cases (text_eq k body)) [
  | inl e ↦
      let q : o ≡ l = ground (arith, e) in
      rw e (All-kept m o files (λ f h. c f (subst (λ x. clash x f ≡ false) q h)) d.0, d.1)
  | inr e ↦
      let n' : lane_of body files ≡ some l = ground (arith, e) in
      let h = All-lane_of (λ f. clash o f ≡ false) body files n' d.0 in
      rw e (
        All-write_lane (λ f. clash o f ≡ false) body m files (clash-sym m o (c o (clash-sym o l h)))
            d.0,
        Apart-replaced body l m files n' c d.1,
      )
]
