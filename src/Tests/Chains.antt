-- ===== src/Tests/Chains.antt =====
-- A log of two events under a digest without collisions, and instances of the theorems about logs.
use playbook_harness.Base.{
  ℕ, ◌≡◌, refl, ap, false, none, some, List, [], ◌∷◌, ◌++◌, ok, arith, length, head_or, drop,
}
use playbook_harness.Text.{Text, codes, text_eq}
use playbook_harness.Arena.Chain.{
  Fields, Event, Verified, RunFiles, zero_hash, verified_event, make_event, append, verify,
  verify_from, check_event, check_resumable,
}
use playbook_harness.Arena.Chain.Appended.{append-resumable}
use playbook_harness.Arena.Chain.Evidence.{verify-tamper_evident}

-- A text that holds all the fields, with the lengths of two of them.
abbrev spell : Fields ℕ → Text
spell f =
    f.sequence
    ∷ f.payload
    ∷ length f.time
    ∷ (f.time ++ (length f.type ∷ (f.type ++ f.previous_hash)))

append-parts : (a b c d : Text) → length a ≡ length b → a ++ c ≡ b ++ d → (a ≡ b) × (c ≡ d)
append-parts [] [] c d l h = (refl, h)
append-parts [] (y ∷ b) c d l h = ground arith
append-parts (x ∷ a) [] c d l h = ground arith
append-parts (x ∷ a) (y ∷ b) c d l h =
    let t = append-parts a b c d (omega arith) (ap (drop 1) h) in
    let e : x ≡ y = ap (head_or 0) h in (cc (e, t.0), t.1)

fields-eq :
    (a b : Fields ℕ)
    → a.sequence ≡ b.sequence
    → a.payload ≡ b.payload
    → a.time ≡ b.time
    → a.type ≡ b.type
    → a.previous_hash ≡ b.previous_hash
    → a ≡ b
fields-eq a b h i j k l = cc

spell-collision_free : (a b : Fields ℕ) → spell a ≡ spell b → a ≡ b
spell-collision_free a b h =
    let s : a.sequence ≡ b.sequence = ap (head_or 0) h in
    let p : a.payload ≡ b.payload = ap (λ (t : Text). head_or 0 (drop 1 t)) h in
    let n : length a.time ≡ length b.time = ap (λ (t : Text). head_or 0 (drop 2 t)) h in
    let (i, r) = append-parts a.time b.time _ _ n (ap (drop 3) h) in
    let m : length a.type ≡ length b.type = ap (head_or 0) r in
    let (j, q) = append-parts a.type b.type a.previous_hash b.previous_hash m (ap (drop 1) r) in
    fields-eq a b s p i j q

abbrev first : Event ℕ
first = make_event spell (1, zero_hash) (codes "t0") (codes "run_reserved") 5

abbrev second : Event ℕ
second = make_event spell (2, first.hash) (codes "t1") (codes "run_resumed") 6

abbrev log : List (Event ℕ)
log = first ∷ second ∷ []

abbrev read : List (Verified ℕ)
read = verified_event first ∷ verified_event second ∷ []

log-verifies : verify spell (some log) ≡ ok read
unfolding verify verify_from check_event text_eq
log-verifies = refl

verify-tamper_evident_example : log ≡ log
verify-tamper_evident_example =
    verify-tamper_evident spell spell-collision_free log log read read log-verifies log-verifies
      refl

abbrev files : RunFiles ℕ
files = record { events = some log; snapshot = none }

append-resumable_example :
    (v : Verified ℕ) × ((append spell false files
        (codes "t2")
        (codes "wall_timeout")
        7
        (codes "stopping")).0
      ≡ ok v)
    × (v.type ≡ codes "wall_timeout")
    × (v.payload ≡ 7)
    × (verify spell
          (append spell false files
            (codes "t2")
            (codes "wall_timeout")
            7
            (codes "stopping")).1.events
        ≡ ok (read ++ (v ∷ [])))
    × (check_resumable spell
          (append spell false files (codes "t2") (codes "wall_timeout") 7 (codes "stopping")).1
        ≡ ok (read ++ (v ∷ [])))
append-resumable_example =
    append-resumable spell files (codes "t2") (codes "wall_timeout") 7 (codes "stopping") read
      log-verifies refl
