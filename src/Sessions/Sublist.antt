-- ===== src/Sessions/Sublist.antt =====
-- Files that are left when others are removed.
use playbook_harness.Base.{ℕ, ◌≡◌, inl, inr, length, ◌+◌, false, [], ◌∷◌, arith, Bool-cases, All}
use playbook_harness.Text.{Text, text_eq}
use playbook_harness.Sessions.{Launch, Launches}
use playbook_harness.Sessions.Directory.{unlink}
use playbook_harness.Sessions.Launches.{Clock, remove_expired, revoke, is_expired, is_revoked}

-- The first list in order within the second.
pub data Sublist : Launches → Launches → Type 0 where
  done : Sublist [] []
  keep :
      {left files : Launches}
      → (f : Text × Launch) → Sublist left files
      → Sublist (f ∷ left) (f ∷ files)
  skip :
      {left files : Launches} → (f : Text × Launch) → Sublist left files → Sublist left (f ∷ files)

pub Sublist-refl : (files : Launches) → Sublist files files
Sublist-refl [] = done
Sublist-refl (f ∷ files) = keep f (Sublist-refl files)

pub Sublist-trans : {a b c : Launches} → Sublist a b → Sublist b c → Sublist a c
Sublist-trans h done = h
Sublist-trans (keep _ h) (keep f k) = keep f (Sublist-trans h k)
Sublist-trans (skip _ h) (keep f k) = skip f (Sublist-trans h k)
Sublist-trans h (skip f k) = skip f (Sublist-trans h k)

pub remove_expired-Sublist :
    (clock : Clock) (t : ℕ) (files : Launches) → Sublist (remove_expired clock t files) files
unfolding remove_expired
remove_expired-Sublist clock t [] = done
remove_expired-Sublist clock t ((k, l) ∷ files) = elim (Bool-cases (is_expired clock t l)) [
  | inl e ↦ rw e (skip (k, l) (remove_expired-Sublist clock t files))
  | inr e ↦ rw e (keep (k, l) (remove_expired-Sublist clock t files))
]

pub unlink-Sublist : (name : Text) (files : Launches) → Sublist (unlink name files) files
unfolding unlink
unlink-Sublist name [] = done
unlink-Sublist name ((k, l) ∷ files) = elim (Bool-cases (text_eq k name)) [
  | inl e ↦ rw e (skip (k, l) (unlink-Sublist name files))
  | inr e ↦ rw e (keep (k, l) (unlink-Sublist name files))
]

-- The launches that are left are those of the files, without any that is unclaimed by the body.
pub revoke-Sublist :
    (clock : Clock) (body : Text) (files : Launches)
    → Sublist (revoke clock body files).1 files
      × All (λ f. is_revoked clock body f.1 ≡ false) (revoke clock body files).1
      × (length (revoke clock body files).1 + (revoke clock body files).0 ≡ length files)
unfolding revoke
revoke-Sublist clock body [] = (done, tt, omega arith)
revoke-Sublist clock body ((k, l) ∷ files) =
    let (s, a, n) = revoke-Sublist clock body files in
    elim (Bool-cases (is_revoked clock body l)) [
      | inl e ↦ rw e (skip (k, l) s, a, omega (arith, n))
      | inr e ↦ rw e (keep (k, l) s, (e, a), omega (arith, n))
    ]

pub All-Sublist :
    (P : Text × Launch → Type 0) {left files : Launches}
    → Sublist left files
    → All P files
    → All P left
All-Sublist P done a = tt
All-Sublist P (keep f h) a = (a.0, All-Sublist P h a.1)
All-Sublist P (skip f h) a = All-Sublist P h a.1
