-- ===== src/Sessions/Reserved.antt =====
-- What a reservation leaves.
use playbook_harness.Base.{
  ℕ, ◌+◌, ◌≡◌, refl, ◌⊎◌, inl, inr, true, false, Option, none, some, [], ◌∷◌, arith, Result, ok,
  err, ◌>>=◌, >>=-eq-ok, sym, subst, Bool-cases, All, Result-cases, not,
}
use playbook_harness.Text.{Text}
use playbook_harness.Identity.{SessionKey}
use playbook_harness.Lanes.{LaneError, token_reserved}
use playbook_harness.Lanes.Store.{same_name}
use playbook_harness.Lanes.Validate.{Check, require}
use playbook_harness.Sessions.{Launch, Launches, Entries}
use playbook_harness.Sessions.Directory.{lookup, write}
use playbook_harness.Sessions.Launches.{
  Clock, validate_token, validate_launch, remove_expired, is_revoked, is_reserved, no_active_resume,
  ManagedLaunchReservation,
}
use playbook_harness.Sessions.Records.{entry_of}
use playbook_harness.Sessions.Reserve.{
  Request, Asked, ask, new_launch, free_name, free_among_launches, named_launch, Reserved,
  put_launch, require_stopped, has_launch, cleared, reserve_inactive, reserve_operation,
  reserve_locked, reserve_managed_launch,
}
use playbook_harness.Sessions.Sublist.{
  Sublist, Sublist-refl, Sublist-trans, remove_expired-Sublist, revoke-Sublist, All-Sublist,
}
use playbook_harness.Sessions.Apart.{Unnamed, free_among_launches-Unnamed, lookup-none, none-lookup}

-- Where a body is given, no launch of it is unclaimed.
abbrev pub Alone : Clock → Request → Launches → Type 0
Alone clock q files =
    (q.given_body ≡ false) ⊎ All (λ f. is_revoked clock q.body_id f.1 ≡ false) files

-- One launch is written beside files that were there: valid, unclaimed, under a free file name and
-- a name that no other of them has, and alone for its body.
pub record IsReserved (clock : Clock) (q : Request) (files : Launches)
    (r : ManagedLaunchReservation) (left : Launches) : Type 0 where
  pub base : Launches
  pub launch : Launch
  pub kept : Sublist base files
  pub fresh : lookup r.path base ≡ none
  pub written : left ≡ write r.path launch base
  pub valid : validate_launch clock launch ≡ ok tt
  pub unclaimed : is_reserved launch.state ≡ true
  pub same_body : launch.body_id ≡ q.body_id
  pub named : launch.name ≡ q.name
  pub free : All (Unnamed q.name) base
  pub alone : Alone clock q base
  pub token : r.token ≡ q.token

abbrev pub ReserveOutcome : Clock → Request → Launches → Reserved → Type 0
ReserveOutcome clock q files (err e, left) = Sublist left files
ReserveOutcome clock q files (ok r, left) = IsReserved clock q files r left

Unnamed-none : (files : Launches) → All (Unnamed none) files
unfolding same_name
Unnamed-none [] = tt
Unnamed-none (f ∷ files) = (refl, Unnamed-none files)

free_name-Unnamed :
    (clock : Clock) (name : Option Text) (expected : Option SessionKey) (entries : Entries)
    (files : Launches)
    → free_name clock name expected entries files ≡ ok tt
    → All (Unnamed name) files
free_name-Unnamed clock none expected entries files h = Unnamed-none files
free_name-Unnamed clock (some name) expected entries files h =
    let k : free_among_launches clock name files ≡ ok tt = ground arith in
    free_among_launches-Unnamed clock name files k

Alone-Sublist :
    (clock : Clock) (q : Request) {left base : Launches}
    → Sublist left base
    → Alone clock q base
    → Alone clock q left
Alone-Sublist clock q s (inl e) = inl e
Alone-Sublist clock q s (inr a) =
    inr (All-Sublist (λ f. is_revoked clock q.body_id f.1 ≡ false) s a)

free-lookup : (o : Option Launch) → require (not (has_launch o)) token_reserved ≡ ok tt → o ≡ none
free-lookup none h = refl
free-lookup (some l) h = cc

module _ (clock : Clock) (path : Text) (q : Request) (files : Launches)
    (provider created expires : Text) where
  put_launch-outcome :
      (base : Launches) (r : Result LaneError Launch)
      → Sublist base files
      → lookup path base ≡ none
      → Alone clock q base
      → ((l : Launch)
          → r ≡ ok l
          → (l ≡ new_launch q provider created expires)
            × (validate_launch clock l ≡ ok tt)
            × All (Unnamed q.name) base)
      → ReserveOutcome clock q files (put_launch path q base r)
  put_launch-outcome base (err e) s f a n = s
  put_launch-outcome base (ok l) s f a n =
      let (m, v, u) = n l refl in
      record {
        base = base;
        launch = l;
        kept = s;
        fresh = f;
        written = refl;
        valid = v;
        unclaimed = rw m refl;
        same_body = rw m refl;
        named = rw m refl;
        free = u;
        alone = a;
        token = refl;
      }

  named_launch-ok :
      (entries : Entries) (base : Launches) {l : Launch}
      → named_launch clock q (new_launch q provider created expires) entries base ≡ ok l
      → (l ≡ new_launch q provider created expires)
        × (validate_launch clock l ≡ ok tt)
        × All (Unnamed q.name) base
  unfolding named_launch
  named_launch-ok entries base {l} h =
      let launch = new_launch q provider created expires in
      let (a, p, h1) = >>=-eq-ok (free_name clock q.name q.expected_key entries base) _ h in
      let (b, v, h2) = >>=-eq-ok (validate_launch clock launch) _ h1 in
      let e : launch ≡ l = ground arith in
      (
        sym e,
        subst (λ x. validate_launch clock x ≡ ok tt) e v,
        free_name-Unnamed clock q.name q.expected_key entries base p,
      )

  reserve_inactive-outcome :
      (key : SessionKey) (entries : Entries) (base : Launches) (o : Option ℕ)
      → Sublist base files
      → lookup path base ≡ none
      → Alone clock q base
      → ReserveOutcome clock q files
          (reserve_inactive clock path q (new_launch q provider created expires) key entries base o)
  reserve_inactive-outcome key entries base none s f a = s
  reserve_inactive-outcome key entries base (some t) s f a =
      let left = remove_expired clock t base in
      let k = remove_expired-Sublist clock t base in
      put_launch-outcome left _ (Sublist-trans k s)
        (none-lookup path left (All-Sublist _ k (lookup-none path base f)))
        (Alone-Sublist clock q k a)
        (λ l h.
          let (u, p, h1) = >>=-eq-ok (no_active_resume clock key left) _ h in
          named_launch-ok entries left {l = l} h1)

  reserve_operation-outcome :
      (expected : Option SessionKey) (entries : Entries) (base : Launches) (later : Text)
      → Sublist base files
      → lookup path base ≡ none
      → Alone clock q base
      → ReserveOutcome clock q files (
          reserve_operation clock path q
            (new_launch q provider created expires)
            expected
            entries
            base
            later)
  reserve_operation-outcome none entries base later s f a =
      put_launch-outcome base _ s f a (λ l h. named_launch-ok entries base {l = l} h)
  reserve_operation-outcome (some key) entries base later s f a =
      elim (Result-cases (require_stopped q.name key (entry_of key entries).session_record)) [
        | inl (e, h) ↦ rw h s
        | inr (u, h) ↦ rw h (reserve_inactive-outcome key entries base (clock later) s f a)
      ]

cleared-Alone :
    (clock : Clock) (q : Request) (t : ℕ) (files : Launches)
    → Sublist (cleared clock q t files) files × Alone clock q (cleared clock q t files)
cleared-Alone clock q t files = elim (Bool-cases q.given_body) [
  | inl e ↦
      let (s, a, n) = revoke-Sublist clock q.body_id (remove_expired clock t files) in
      rw e (Sublist-trans s (remove_expired-Sublist clock t files), inr a)
  | inr e ↦ rw e (remove_expired-Sublist clock t files, inl refl)
]

reserve_locked-outcome :
    (clock : Clock) (stamp : ℕ → Text) (path : Text) (q : Request) (now later : Text)
    (entries : Entries) (files : Launches) (r : Result LaneError Asked)
    → ReserveOutcome clock q files (reserve_locked clock stamp path q now later entries files r)
reserve_locked-outcome clock stamp path q now later entries files (err e) = Sublist-refl files
reserve_locked-outcome clock stamp path q now later entries files (ok a) =
    let base = cleared clock q a.created files in
    let (s, n) = cleared-Alone clock q a.created files in
    let check : Check = (do
      safe ← validate_token q.token
      require (not (has_launch (lookup path base))) token_reserved) in
    elim (Result-cases check) [
      | inl (e, h) ↦ rw h s
      | inr (u, h) ↦ rw h (
          reserve_operation-outcome clock path q files a.provider now (stamp (a.created + q.ttl))
            q.expected_key entries base later s
            (free-lookup (lookup path base) (>>=-eq-ok (validate_token q.token) _ h).2) n)
    ]

-- Every reservation that raises adds no launch, and leaves others as they were. One that returns
-- writes one launch, valid and unclaimed, with its body and name, to a file that was free; no launch that
-- is left has its name, and where the body was given none of them is unclaimed by that body.
pub reserve_managed_launch-outcome :
    (clock : Clock) (stamp : ℕ → Text) (digest : Text → Text) (q : Request) (now later : Text)
    (entries : Entries) (files : Launches)
    → ReserveOutcome clock q files
        (reserve_managed_launch clock stamp digest q now later entries files)
unfolding reserve_managed_launch
reserve_managed_launch-outcome clock stamp digest q now later entries files =
    reserve_locked-outcome clock stamp (digest q.token) q now later entries files (ask clock q now)
