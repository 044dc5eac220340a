-- ===== src/Lanes/Names.antt =====
-- What every operation on lanes keeps: each file is valid and under its lane's body id, and no two
-- live lanes have one name.
use playbook_harness.Base.{
  ℕ, ◌≡◌, refl, ◌↔◌, sym, subst, ◌∙◌, ap, Bool, true, false, not, ◌&&◌, Option, none, some, [], ◌∷◌,
  arith, All, Bool-cases, inl, inr, Result, ok, err, >>=-eq-ok, Option-cases, Result-cases,
}
use playbook_harness.Text.{Text, text_eq, text_eq_iff}
use playbook_harness.Identity.{SessionKey}
use playbook_harness.Lanes.{
  LaneError, Lane, LaneState, state_eq, Files, lane_of, write_lane, is_destroyed,
}
use playbook_harness.Lanes.Validate.{validate_lane, validate_body_id}
use playbook_harness.Lanes.Create.{not_taken, name_is_free, creation, saved, create_managed_lane}
use playbook_harness.Lanes.Transition.{
  Change, swapped, transition, transition_managed_lane, bind, foreground, record_lane_foreground,
  finalize_lane_binding,
}
use playbook_harness.Lanes.Store.{same_name, clash, Apart, Apart-new, Apart-replaced}

abbrev IsFile : (Text → Bool) → Text × Lane → Type 0
IsFile is_timestamp (k, l) = (k ≡ l.body_id) × (validate_lane is_timestamp l ≡ ok tt)

pub record IsDirectory (is_timestamp : Text → Bool) (files : Files) : Type 0 where
  pub valid : All (IsFile is_timestamp) files
  pub apart : Apart files

write_lane-valid :
    (is_timestamp : Text → Bool) (body : Text) (l : Lane) (files : Files)
    → l.body_id ≡ body
    → validate_lane is_timestamp l ≡ ok tt
    → All (IsFile is_timestamp) files
    → All (IsFile is_timestamp) (write_lane body l files)
unfolding write_lane
write_lane-valid is_timestamp body l [] b v a = ((sym b, v), tt)
write_lane-valid is_timestamp body l ((k, m) ∷ files) b v a = elim (Bool-cases (text_eq k body)) [
  | inl e ↦ rw e (((text_eq_iff k body).0 e ∙ sym b, v), a.1)
  | inr e ↦ rw e (a.0, write_lane-valid is_timestamp body l files b v a.1)
]

lane_of-body :
    (is_timestamp : Text → Bool) (body : Text) (files : Files) {l : Lane}
    → lane_of body files ≡ some l
    → All (IsFile is_timestamp) files
    → l.body_id ≡ body
unfolding lane_of
lane_of-body is_timestamp body [] n a = cc
lane_of-body is_timestamp body ((k, m) ∷ files) {l} n a = elim (Bool-cases (text_eq k body)) [
  | inl e ↦
      let q : m ≡ l = ground (arith, e) in
      subst (λ x. x.body_id ≡ body) q (sym a.0.0 ∙ (text_eq_iff k body).0 e)
  | inr e ↦ lane_of-body is_timestamp body files {l = l} (ground (arith, e)) a.1
]

-- The loop over the names finds no live lane with the name.
name_is_free-clash :
    (is_timestamp : Text → Bool) (l : Lane) (files : Files)
    → name_is_free is_timestamp l.name files ≡ ok tt
    → All (λ f. clash l f.1 ≡ false) files
unfolding name_is_free clash same_name
name_is_free-clash is_timestamp l [] h = tt
name_is_free-clash is_timestamp l ((k, m) ∷ files) h =
    let (u, p, q) = >>=-eq-ok (validate_lane is_timestamp m) _ h in
    let (v, r, t) = >>=-eq-ok (not_taken l.name m) _ q in
    (ground arith, name_is_free-clash is_timestamp l files t)

record IsCreation (is_timestamp : Text → Bool) (name : Option Text) (body : Text) (files : Files)
    (l : Lane) : Type 0 where
  pub named : l.name ≡ name
  pub body_is : l.body_id ≡ body
  pub absent : lane_of body files ≡ none
  pub free : name_is_free is_timestamp name files ≡ ok tt
  pub valid : validate_lane is_timestamp l ≡ ok tt

creation-IsCreation :
    (is_timestamp : Text → Bool) (name : Option Text) (body project cwd now : Text) (files : Files)
    {l : Lane}
    → creation is_timestamp name body project cwd now files ≡ ok l
    → IsCreation is_timestamp name body files l
creation-IsCreation is_timestamp name body project cwd now files {l} h = ground arith

create-saved :
    (is_timestamp : Text → Bool) (name : Option Text) (body : Text) (files : Files)
    (r : Result LaneError Lane)
    → ((l : Lane) → r ≡ ok l → IsCreation is_timestamp name body files l)
    → IsDirectory is_timestamp files
    → IsDirectory is_timestamp (saved body files r).1
create-saved is_timestamp name body files (err e) c d = d
create-saved is_timestamp name body files (ok l) c d =
    let i = c l refl in
    let free = subst (λ n. name_is_free is_timestamp n files ≡ ok tt) (sym i.named) i.free in
    record {
      valid = write_lane-valid is_timestamp body l files i.body_is i.valid d.valid;
      apart =
          Apart-new body l files i.absent (name_is_free-clash is_timestamp l files free) d.apart;
    }

-- What a lane that is written over another keeps of it.
record IsSuccessor (is_timestamp : Text → Bool) (l m : Lane) : Type 0 where
  pub same_name : m.name ≡ l.name
  pub same_body : m.body_id ≡ l.body_id
  pub valid : validate_lane is_timestamp m ≡ ok tt
  pub no_revival : is_destroyed l.state ≡ true → is_destroyed m.state ≡ true

IsSuccessor-clash :
    (is_timestamp : Text → Bool) (l m : Lane)
    → IsSuccessor is_timestamp l m
    → (f : Lane) → clash l f ≡ false
    → clash m f ≡ false
unfolding clash
IsSuccessor-clash is_timestamp l m s f h =
    let e : same_name m.name f.name ≡ same_name l.name f.name =
      ap (λ n. same_name n f.name) s.same_name in
    let r = s.no_revival in ground (arith, e)

replaced :
    (is_timestamp : Text → Bool) (body : Text) (l m : Lane) (files : Files)
    → lane_of body files ≡ some l
    → IsSuccessor is_timestamp l m
    → IsDirectory is_timestamp files
    → IsDirectory is_timestamp (write_lane body m files)
replaced is_timestamp body l m files n s d = record {
  valid =
      write_lane-valid is_timestamp body m files
        (s.same_body ∙ lane_of-body is_timestamp body files n d.valid) s.valid d.valid;
  apart = Apart-replaced body l m files n (IsSuccessor-clash is_timestamp l m s) d.apart;
}

state_eq_iff : (a b : LaneState) → (state_eq a b ≡ true) ↔ (a ≡ b)
unfolding state_eq
state_eq_iff a b = ground arith

swapped-IsSuccessor :
    (is_timestamp : Text → Bool) (l : Lane) (c : Change) (now : Text) {m : Lane}
    → (is_destroyed c.expected_state ≡ true → is_destroyed c.state ≡ true)
    → swapped is_timestamp l c now ≡ ok m
    → IsSuccessor is_timestamp l m
unfolding swapped
swapped-IsSuccessor is_timestamp l c now {m} k h =
    ground (arith, state_eq_iff l.state c.expected_state)

pub transition-swapped :
    (is_timestamp : Text → Bool) (body : Text) (c : Change) (now : Text) (o : Option Lane)
    {m : Lane}
    → transition is_timestamp body c now o ≡ ok m
    → (l : Lane) × (o ≡ some l) × (swapped is_timestamp l c now ≡ ok m)
unfolding transition
transition-swapped is_timestamp body c now o {m} h = ground arith

bind-IsSuccessor :
    (is_timestamp : Text → Bool) (l : Lane) (key : SessionKey) (now : Text) {m : Lane}
    → bind is_timestamp l key now ≡ ok m
    → IsSuccessor is_timestamp l m
unfolding bind
bind-IsSuccessor is_timestamp l key now {m} h = ground arith

swap-saved :
    (is_timestamp : Text → Bool) (body : Text) (c : Change) (now : Text) (files : Files)
    (r : Result LaneError Lane)
    → transition is_timestamp body c now (lane_of body files) ≡ r
    → (is_destroyed c.expected_state ≡ true → is_destroyed c.state ≡ true)
    → IsDirectory is_timestamp files
    → IsDirectory is_timestamp (saved body files r).1
swap-saved is_timestamp body c now files (err e) h k d = d
swap-saved is_timestamp body c now files (ok m) h k d =
    let (l, p, q) = transition-swapped is_timestamp body c now (lane_of body files) {m = m} h in
    replaced is_timestamp body l m files p (swapped-IsSuccessor is_timestamp l c now {m = m} k q) d

bind-published :
    (is_timestamp : Text → Bool) (body : Text) (key : SessionKey) (now : Text) (files : Files)
    → IsDirectory is_timestamp files
    → IsDirectory is_timestamp (finalize_lane_binding is_timestamp body key now files).1
unfolding finalize_lane_binding
bind-published is_timestamp body key now files d = elim (Result-cases (validate_body_id body)) [
  | inl (e, p) ↦ rw p d
  | inr (u, p) ↦ elim (Option-cases (lane_of body files)) [
    | inl n ↦ rw (p, n) d
    | inr (l, n) ↦ elim (Result-cases (bind is_timestamp l key now)) [
      | inl (e, q) ↦ rw (p, n, q) d
      | inr (m, q) ↦
          rw (p, n, q)
            (replaced is_timestamp body l m files n
              (bind-IsSuccessor is_timestamp l key now {m = m} q) d)
    ]
  ]
]

foreground-IsSuccessor :
    (is_timestamp : Text → Bool) (body : Text) (generation group : ℕ) (now : Text) (o : Option Lane)
    {m : Lane}
    → foreground is_timestamp body generation group now o ≡ ok m
    → (l : Lane) × (o ≡ some l) × IsSuccessor is_timestamp l m
unfolding foreground
foreground-IsSuccessor is_timestamp body generation group now o {m} h = ground arith

foreground-saved :
    (is_timestamp : Text → Bool) (body : Text) (generation group : ℕ) (now : Text) (files : Files)
    (r : Result LaneError Lane)
    → foreground is_timestamp body generation group now (lane_of body files) ≡ r
    → IsDirectory is_timestamp files
    → IsDirectory is_timestamp (saved body files r).1
foreground-saved is_timestamp body generation group now files (err e) h d = d
foreground-saved is_timestamp body generation group now files (ok m) h d =
    let (l, p, s) =
      foreground-IsSuccessor is_timestamp body generation group now (lane_of body files) {m = m}
        h in
    replaced is_timestamp body l m files p s d

-- In a directory of valid lanes with distinct live names, making a lane, a change that does not
-- revive a destroyed lane, the binding of a conversation and the record of a process group leave such
-- a directory, also when they are refused.
pub operations-IsDirectory :
    (is_timestamp : Text → Bool) (files : Files) (name : Option Text) (body project cwd now : Text)
    (c : Change) (key : SessionKey) (generation group : ℕ)
    → IsDirectory is_timestamp files
    → (is_destroyed c.expected_state && not (is_destroyed c.state)) ≡ false
    → IsDirectory is_timestamp (create_managed_lane is_timestamp name body project cwd now files).1
      × IsDirectory is_timestamp (transition_managed_lane is_timestamp body c now files).1
      × IsDirectory is_timestamp (finalize_lane_binding is_timestamp body key now files).1
      × IsDirectory is_timestamp
          (record_lane_foreground is_timestamp body generation group now files).1
unfolding create_managed_lane transition_managed_lane record_lane_foreground
operations-IsDirectory is_timestamp files name body project cwd now c key generation group d k = (
  create-saved is_timestamp name body files _
      (λ l h. creation-IsCreation is_timestamp name body project cwd now files {l = l} h) d,
  swap-saved is_timestamp body c now files _ refl (λ e. ground arith) d,
  bind-published is_timestamp body key now files d,
  foreground-saved is_timestamp body generation group now files _ refl d,
)
