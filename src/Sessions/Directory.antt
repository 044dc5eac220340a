-- ===== src/Sessions/Directory.antt =====
-- A directory as the list of its files by name.
use playbook_harness.Base.{◌≡◌, refl, Option, none, some, List, [], ◌∷◌, arith, if◌then◌else◌}
use playbook_harness.Text.{Text, text_eq, text_eq_iff}

module _ {ℓ} {A : Type ℓ} where
  unfoldable pub lookup : Text → List (Text × A) → Option A
  lookup name [] = none
  lookup name ((k, a) ∷ files) = if text_eq k name then some a else lookup name files

  -- A file is replaced, or made.
  unfoldable pub write : Text → A → List (Text × A) → List (Text × A)
  write name a [] = (name, a) ∷ []
  write name a ((k, b) ∷ files) =
      let rest = write name a files in if text_eq k name then (k, a) ∷ files else (k, b) ∷ rest

  -- `path.unlink()`
  unfoldable pub unlink : Text → List (Text × A) → List (Text × A)
  unlink name [] = []
  unlink name ((k, b) ∷ files) =
      let rest = unlink name files in if text_eq k name then rest else (k, b) ∷ rest

  pub lookup-write :
      (name other : Text) (a : A) (files : List (Text × A))
      → lookup other (write name a files)
        ≡ (if text_eq name other then some a else lookup other files)
  unfolding lookup write
  lookup-write name other a [] = refl
  lookup-write name other a ((k, b) ∷ files) = ground (
    arith,
    text_eq_iff k name,
    text_eq_iff k other,
    text_eq_iff name other,
    lookup-write name other a files,
  )

  pub lookup-unlink :
      (name other : Text) (files : List (Text × A))
      → lookup other (unlink name files) ≡ (if text_eq name other then none else lookup other files)
  unfolding lookup unlink
  lookup-unlink name other [] = ground arith
  lookup-unlink name other ((k, b) ∷ files) = ground (
    arith,
    text_eq_iff k name,
    text_eq_iff k other,
    text_eq_iff name other,
    lookup-unlink name other files,
  )
