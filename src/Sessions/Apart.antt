-- ===== src/Sessions/Apart.antt =====
-- Launches with different names.
use playbook_harness.Base.{
  ◌≡◌, refl, sym, subst, ap, ◌∙◌, inl, inr, false, Option, none, some, [], ◌∷◌, arith, Bool-cases,
  All, ok,
}
use playbook_harness.Text.{Text, text_eq, text_eq_iff}
use playbook_harness.Lanes.Store.{same_name}
use playbook_harness.Lanes.Create.{is_named}
use playbook_harness.Sessions.{Launch, Launches}
use playbook_harness.Sessions.Directory.{lookup, write}
use playbook_harness.Sessions.Launches.{Clock}
use playbook_harness.Sessions.Reserve.{free_among_launches}
use playbook_harness.Sessions.Sublist.{Sublist, done, keep, skip, All-Sublist}

abbrev pub Unnamed : Option Text → Text × Launch → Type 0
Unnamed name f = same_name name f.1.name ≡ false

abbrev pub Apart : Launches → Type 0
Apart [] = Unit
Apart ((k, l) ∷ files) = All (Unnamed l.name) files × Apart files

pub Apart-Sublist : {left files : Launches} → Sublist left files → Apart files → Apart left
Apart-Sublist done a = tt
Apart-Sublist (keep (k, l) h) a = (All-Sublist (Unnamed l.name) h a.0, Apart-Sublist h a.1)
Apart-Sublist (skip (k, l) h) a = Apart-Sublist h a.1

same_name_sym : (a b : Option Text) → same_name a b ≡ same_name b a
unfolding same_name is_named
same_name_sym (some n) (some m) = ground (arith, text_eq_iff n m, text_eq_iff m n)
same_name_sym (some n) none = refl
same_name_sym none (some m) = refl
same_name_sym none none = refl

All-write :
    (P : Text × Launch → Type 0) (path : Text) (l : Launch) (files : Launches)
    → ((k : Text) → P (k, l))
    → All P files
    → All P (write path l files)
unfolding write
All-write P path l [] p a = (p path, tt)
All-write P path l ((k, m) ∷ files) p a = elim (Bool-cases (text_eq k path)) [
  | inl e ↦ rw e (p k, a.1)
  | inr e ↦ rw e (a.0, All-write P path l files p a.1)
]

-- A launch whose name no other has is written.
pub Apart-write :
    (path : Text) (l : Launch) (files : Launches)
    → All (Unnamed l.name) files
    → Apart files
    → Apart (write path l files)
unfolding write
Apart-write path l [] n a = (tt, tt)
Apart-write path l ((k, m) ∷ files) n a = elim (Bool-cases (text_eq k path)) [
  | inl e ↦ rw e (n.1, a.1)
  | inr e ↦ rw e (
    All-write (Unnamed m.name) path l files (λ j. same_name_sym m.name l.name ∙ n.0) a.0,
    Apart-write path l files n.1 a.1,
  )
]

All-lookup :
    (P : Text × Launch → Type 0) (path : Text) (files : Launches) {l : Launch}
    → lookup path files ≡ some l
    → All P files
    → (k : Text) × P (k, l)
unfolding lookup
All-lookup P path [] h a = cc
All-lookup P path ((k, m) ∷ files) {l} h a = elim (Bool-cases (text_eq k path)) [
  | inl e ↦ let q : m ≡ l = ground (arith, e) in (k, subst (λ x. P (k, x)) q a.0)
  | inr e ↦ All-lookup P path files {l = l} (ground (arith, e)) a.1
]

-- A launch is replaced by one of the same name.
pub Apart-replaced :
    (path : Text) (l m : Launch) (files : Launches)
    → lookup path files ≡ some l
    → m.name ≡ l.name
    → Apart files
    → Apart (write path m files)
unfolding write lookup
Apart-replaced path l m [] h n a = (tt, tt)
Apart-replaced path l m ((k, o) ∷ files) h n a = elim (Bool-cases (text_eq k path)) [
  | inl e ↦
      let q : o.name ≡ m.name =
        (let x : o ≡ l = ground (arith, e) in ap (λ (y : Launch). y.name) x ∙ sym n) in
      rw e (subst (λ x. All (Unnamed x) files) q a.0, a.1)
  | inr e ↦
      let h' : lookup path files ≡ some l = ground (arith, e) in
      let (j, u) = All-lookup (Unnamed o.name) path files {l = l} h' a.0 in
      rw e (
        All-write (Unnamed o.name) path m files
            (λ i. subst (λ x. same_name o.name x ≡ false) (sym n) u) a.0,
        Apart-replaced path l m files h' n a.1,
      )
]

-- The names that `reserve_managed_launch` has looked through.
pub free_among_launches-Unnamed :
    (clock : Clock) (name : Text) (files : Launches)
    → free_among_launches clock name files ≡ ok tt
    → All (Unnamed (some name)) files
unfolding free_among_launches same_name is_named
free_among_launches-Unnamed clock name [] h = tt
free_among_launches-Unnamed clock name ((k, l) ∷ files) h =
    (ground arith, free_among_launches-Unnamed clock name files (ground arith))

pub lookup-none :
    (name : Text) (files : Launches)
    → lookup name files ≡ none
    → All (λ f. text_eq f.0 name ≡ false) files
unfolding lookup
lookup-none name [] h = tt
lookup-none name ((k, l) ∷ files) h = (ground arith, lookup-none name files (ground arith))

pub none-lookup :
    (name : Text) (files : Launches)
    → All (λ f. text_eq f.0 name ≡ false) files
    → lookup name files ≡ none
unfolding lookup
none-lookup name [] a = refl
none-lookup name ((k, l) ∷ files) a = rw a.0 (none-lookup name files a.1)
