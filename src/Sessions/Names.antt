-- ===== src/Sessions/Names.antt =====
-- The names of launches stay different.
use playbook_harness.Base.{
  ℕ, refl, inl, inr, Bool, Option, none, some, ok, err, ◌>>=◌, All, Result-cases, Bool-cases, sym,
  subst,
}
use playbook_harness.Text.{Text, text_eq}
use playbook_harness.Identity.{SessionKey}
use playbook_harness.Lanes.{path_disagrees}
use playbook_harness.Lanes.Validate.{Check, require, validate_body_id}
use playbook_harness.Sessions.{Launch, Launches, Disk}
use playbook_harness.Sessions.Directory.{lookup}
use playbook_harness.Sessions.Launches.{
  Clock, validate_token, validate_launch, revoke_unclaimed_launches, assert_inactive,
  assert_no_active_managed_resume, ManagedLaunchReservation, release, releasable, cancel_found,
  cancel_checked, cancel_managed_launch,
}
use playbook_harness.Sessions.Records.{}
use playbook_harness.Sessions.Reserve.{Request, Reserved, reserve_managed_launch}
use playbook_harness.Sessions.Bind.{Bind, claim, bind_locked}
use playbook_harness.Sessions.Sublist.{
  Sublist, Sublist-refl, revoke-Sublist, remove_expired-Sublist, unlink-Sublist,
}
use playbook_harness.Sessions.Apart.{Apart, Apart-Sublist, Apart-write, Apart-replaced, Unnamed}
use playbook_harness.Sessions.Reserved.{ReserveOutcome, reserve_managed_launch-outcome}
use playbook_harness.Sessions.Kept.{bind_locked-kept}

release-Sublist :
    (path : Text) (l : Launch) (body : Text) (stopped : Bool) (files : Launches) (c : Check)
    → Sublist (release path l body stopped files c).1 files
release-Sublist path l body stopped files (err e) = Sublist-refl files
release-Sublist path l body stopped files (ok u) = elim (Bool-cases (text_eq l.body_id body)) [
  | inr e ↦ rw e (Sublist-refl files)
  | inl e ↦ elim (Bool-cases (releasable stopped l.state)) [
    | inl f ↦ rw (e, f) (unlink-Sublist path files)
    | inr f ↦ rw (e, f) (Sublist-refl files)
  ]
]

cancel_found-Sublist :
    (clock : Clock) (path body : Text) (stopped : Bool) (files : Launches) (o : Option Launch)
    → Sublist (cancel_found clock path body stopped files o).1 files
cancel_found-Sublist clock path body stopped files none = Sublist-refl files
cancel_found-Sublist clock path body stopped files (some l) =
    release-Sublist path l body stopped files (validate_launch clock l)

cancel_checked-Sublist :
    (clock : Clock) (r : ManagedLaunchReservation) (stopped : Bool) (files : Launches) (c : Check)
    → Sublist (cancel_checked clock r stopped files c).1 files
cancel_checked-Sublist clock r stopped files (err e) = Sublist-refl files
cancel_checked-Sublist clock r stopped files (ok u) =
    cancel_found-Sublist clock r.path r.body_id stopped files (lookup r.path files)

cancel_managed_launch-Sublist :
    (clock : Clock) (digest : Text → Text) (r : ManagedLaunchReservation) (stopped : Bool)
    (files : Launches)
    → Sublist (cancel_managed_launch clock digest r stopped files).1 files
unfolding cancel_managed_launch
cancel_managed_launch-Sublist clock digest r stopped files =
    cancel_checked-Sublist clock r stopped files
      (do a ← validate_token r.token; require (text_eq (digest r.token) r.path) path_disagrees)

assert_inactive-Sublist :
    (clock : Clock) (key : SessionKey) (files : Launches) (o : Option ℕ)
    → Sublist (assert_inactive clock key files o).1 files
assert_inactive-Sublist clock key files none = Sublist-refl files
assert_inactive-Sublist clock key files (some t) = remove_expired-Sublist clock t files

revoke_unclaimed-Sublist :
    (clock : Clock) (body : Text) (files : Launches)
    → Sublist (revoke_unclaimed_launches clock body files).1 files
unfolding revoke_unclaimed_launches
revoke_unclaimed-Sublist clock body files = elim (Result-cases (validate_body_id body)) [
  | inl (e, h) ↦ rw h (Sublist-refl files)
  | inr (u, h) ↦ rw h (revoke-Sublist clock body files).0
]

reserved-Apart :
    (clock : Clock) (q : Request) (files : Launches) (r : Reserved)
    → ReserveOutcome clock q files r
    → Apart files
    → Apart r.1
reserved-Apart clock q files (err e, left) s a = Apart-Sublist s a
reserved-Apart clock q files (ok r, left) i a = subst Apart (sym i.written) (
    Apart-write r.path i.launch i.base (subst (λ n. All (Unnamed n) i.base) (sym i.named) i.free)
      (Apart-Sublist i.kept a))

-- No two launches have one name: a reservation, the binding of a conversation, a cancellation, a
-- revocation and the removal of expired launches keep that, whether they return or raise.
pub operations-Apart :
    (clock : Clock) (digest : Text → Text) (disk : Disk)
    → Apart disk.launches
    → ((stamp : ℕ → Text) (q : Request) (now later : Text)
        → Apart
            (reserve_managed_launch clock stamp digest q now later disk.entries disk.launches).1)
      × ((b : Bind) → Apart (bind_locked clock b disk).1.launches)
      × ((r : ManagedLaunchReservation) (stopped : Bool)
          → Apart (cancel_managed_launch clock digest r stopped disk.launches).1)
      × ((body : Text) → Apart (revoke_unclaimed_launches clock body disk.launches).1)
      × ((key : SessionKey) (now : Text)
          → Apart (assert_no_active_managed_resume clock key now disk.launches).1)
unfolding assert_no_active_managed_resume
operations-Apart clock digest disk a = (
  λ stamp q now later.
      reserved-Apart clock q disk.launches
        (reserve_managed_launch clock stamp digest q now later disk.entries disk.launches)
        (reserve_managed_launch-outcome clock stamp digest q now later disk.entries disk.launches)
        a,
  λ b.
      bind_locked-kept clock b Apart
        (λ l files h p. Apart-replaced b.path l (claim b l) files h refl p)
        (λ files p. Apart-Sublist (unlink-Sublist b.path files) p) disk a,
  λ r stopped. Apart-Sublist (cancel_managed_launch-Sublist clock digest r stopped disk.launches) a,
  λ body. Apart-Sublist (revoke_unclaimed-Sublist clock body disk.launches) a,
  λ key now. Apart-Sublist (assert_inactive-Sublist clock key disk.launches (clock now)) a,
)
