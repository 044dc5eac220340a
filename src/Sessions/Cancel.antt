-- ===== src/Sessions/Cancel.antt =====
-- When a launch is released.
use playbook_harness.Base.{
  ◌≡◌, refl, ◌⊎◌, inl, inr, Bool, true, false, Option, none, some, arith, Result, ok, err, ◌>>=◌,
  Bool-cases, ◌∙◌,
}
use playbook_harness.Text.{Text, text_eq, text_eq_iff, text_eq_refl}
use playbook_harness.Lanes.{LaneError, path_disagrees}
use playbook_harness.Lanes.Validate.{Check, require}
use playbook_harness.Sessions.{Launch, Launches, LaunchState}
use playbook_harness.Sessions.Directory.{lookup, lookup-unlink}
use playbook_harness.Sessions.Launches.{
  Clock, validate_token, validate_launch, is_reserved, ManagedLaunchReservation, release,
  releasable, cancel_found, cancel_checked, cancel_managed_launch,
}

-- The launch that was there, of the same body, and that nobody can use any more.
pub record IsReleased (r : ManagedLaunchReservation) (stopped : Bool) (files left : Launches)
    : Type 0 where
  pub launch : Launch
  pub held : lookup r.path files ≡ some launch
  pub same_body : launch.body_id ≡ r.body_id
  pub unused : (is_reserved launch.state ≡ true) ⊎ (stopped ≡ true)
  pub gone : lookup r.path left ≡ none
  pub others_kept :
      (name : Text) → text_eq r.path name ≡ false → lookup name left ≡ lookup name files

abbrev pub CancelOutcome :
    ManagedLaunchReservation → Bool → Launches → Result LaneError Bool × Launches → Type 0
CancelOutcome r stopped files (ok true, left) = IsReleased r stopped files left
CancelOutcome r stopped files (ok false, left) = left ≡ files
CancelOutcome r stopped files (err e, left) = left ≡ files

releasable-unused :
    (stopped : Bool) (s : LaunchState)
    → releasable stopped s ≡ true
    → (is_reserved s ≡ true) ⊎ (stopped ≡ true)
releasable-unused stopped s h = ground arith

release-outcome :
    (r : ManagedLaunchReservation) (stopped : Bool) (files : Launches) (l : Launch) (c : Check)
    → lookup r.path files ≡ some l
    → CancelOutcome r stopped files (release r.path l r.body_id stopped files c)
release-outcome r stopped files l (err e) h = refl
release-outcome r stopped files l (ok u) h = elim (Bool-cases (text_eq l.body_id r.body_id)) [
  | inr e ↦ rw e refl
  | inl e ↦ elim (Bool-cases (releasable stopped l.state)) [
    | inr f ↦ rw (e, f) refl
    | inl f ↦
        rw (e, f)
          (record {
            launch = l;
            held = h;
            same_body = (text_eq_iff l.body_id r.body_id).0 e;
            unused = releasable-unused stopped l.state f;
            gone = lookup-unlink r.path r.path files ∙ rw (text_eq_refl r.path) refl;
            others_kept = λ name n. lookup-unlink r.path name files ∙ rw n refl;
          })
  ]
]

cancel_found-outcome :
    (clock : Clock) (r : ManagedLaunchReservation) (stopped : Bool) (files : Launches)
    (o : Option Launch)
    → lookup r.path files ≡ o
    → CancelOutcome r stopped files (cancel_found clock r.path r.body_id stopped files o)
cancel_found-outcome clock r stopped files none h = refl
cancel_found-outcome clock r stopped files (some l) h =
    release-outcome r stopped files l (validate_launch clock l) h

cancel_checked-outcome :
    (clock : Clock) (r : ManagedLaunchReservation) (stopped : Bool) (files : Launches) (c : Check)
    → CancelOutcome r stopped files (cancel_checked clock r stopped files c)
cancel_checked-outcome clock r stopped files (err e) = refl
cancel_checked-outcome clock r stopped files (ok u) =
    cancel_found-outcome clock r stopped files (lookup r.path files) refl

-- A cancellation that answers yes removed the launch of the reservation, of its body, which was
-- unclaimed or whose body was stopped, and nothing else; any other outcome, also one that raises, leaves all files.
pub cancel_managed_launch-outcome :
    (clock : Clock) (digest : Text → Text) (r : ManagedLaunchReservation) (stopped : Bool)
    (files : Launches)
    → CancelOutcome r stopped files (cancel_managed_launch clock digest r stopped files)
unfolding cancel_managed_launch
cancel_managed_launch-outcome clock digest r stopped files =
    cancel_checked-outcome clock r stopped files
      (do a ← validate_token r.token; require (text_eq (digest r.token) r.path) path_disagrees)
