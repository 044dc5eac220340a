-- ===== src/Sessions/SingleUse.antt =====
-- A launch serves one conversation.
use playbook_harness.Base.{
  ◌≡◌, ◌≢◌, ap, sym, ◌∙◌, inl, inr, some-eq, true, false, Option, none, some, arith, ok, err,
}
use playbook_harness.Text.{Text, text_eq_iff}
use playbook_harness.Identity.{SessionKey, key_eq}
use playbook_harness.Sessions.{Disk}
use playbook_harness.Sessions.Directory.{lookup}
use playbook_harness.Sessions.Launches.{Clock, is_key}
use playbook_harness.Sessions.Bind.{Bind, Bound, bind_locked}
use playbook_harness.Sessions.Claim.{Spent, IsClaimed, bind_locked-BindOutcome}

is_key-key_eq :
    (p s : Option Text) (a b : SessionKey)
    → is_key p s a ≡ true
    → is_key p s b ≡ true
    → key_eq a b ≡ true
unfolding key_eq
is_key-key_eq (some p) (some s) a b h k = ground (
  arith,
  text_eq_iff p a.provider,
  text_eq_iff p b.provider,
  text_eq_iff s a.session_id,
  text_eq_iff s b.session_id,
  text_eq_iff a.provider b.provider,
  text_eq_iff a.session_id b.session_id,
)
is_key-key_eq none s a b h k = cc
is_key-key_eq (some p) none a b h k = ground arith

-- What a spent launch refuses.
Spent-refuses :
    (clock : Clock) (b c : Bind) (left : Bound) (again : Bound)
    → c.path ≡ b.path
    → key_eq b.key c.key ≡ false
    → Spent b left
    → IsClaimed clock c left.1 again
    → ⊥
Spent-refuses clock b c (ok r, disk) again p k s i = ground (arith, i.holds, p, s)
Spent-refuses clock b c (err e, disk) again p k (l, h, n, q) i =
    let same : l ≡ i.launch =
      some-eq (sym h ∙ ap (λ t. lookup t disk.launches) (sym p) ∙ i.holds) in
    elim i.admitted.unclaimed [
      | inl f ↦ ground (arith, same, f, n)
      | inr f ↦
          let f' : is_key l.claimed_provider l.claimed_session_id c.key ≡ true = rw same f in
          ground (arith, is_key-key_eq l.claimed_provider l.claimed_session_id b.key c.key q f')
    ]

-- After a bind that wrote a session record or made a session directory, whether it returned or raised
-- behind that, no bind of another conversation with the same token does.
pub bind_locked-single_use :
    (clock : Clock) (b c : Bind) (disk : Disk)
    → c.path ≡ b.path
    → key_eq b.key c.key ≡ false
    → (bind_locked clock b disk).1.entries ≢ disk.entries
    → (bind_locked clock c (bind_locked clock b disk).1).1.entries
      ≡ (bind_locked clock b disk).1.entries
bind_locked-single_use clock b c disk p k w =
    let left = bind_locked clock b disk in
    elim (bind_locked-BindOutcome clock b disk) [
      | inl e ↦ absurd (w e)
      | inr i ↦ elim (bind_locked-BindOutcome clock c left.1) [
        | inl e ↦ e
        | inr j ↦ absurd (Spent-refuses clock b c left (bind_locked clock c left.1) p k i.spent j)
      ]
    ]
