-- ===== src/GateEdit/Pointer.antt =====
-- What an admitted edit leaves of the task, and the gate that it closes.
use playbook_harness.Base.{
  ℕ, ◌+◌, ◌≡◌, refl, ◌⊎◌, inl, inr, Bool, true, false, Option, none, some, List, [], ◌∷◌, arith,
  ◌==◌, Result, ok, err, >>=-eq-ok, map_err, length, get_elem?, Bool-cases, Option-cases, ltb, ◌≤◌,
  sym,
}
use playbook_harness.Text.{Text, text_eq_iff}
use playbook_harness.TaskDocument.Document.{
  TaskGate, TaskDocument, parse, gates, progress, is_monitor_board, DocumentError,
}
use playbook_harness.TaskDocument.Gates.{open_gates}
use playbook_harness.TaskDocument.Replace.{same_authority}
use playbook_harness.TaskDocument.Authority.{same_authority-eq}
use playbook_harness.GateEdit.Candidate.{unparsed}
use playbook_harness.GateEdit.Validate.{
  first_open, check_pointer, check_documents, validate_task_candidate, bool_eq,
}

-- The first open gate of a list, with its place.
pub record FirstOpenAt (gs : List TaskGate) (i : ℕ) : Type 0 where
  pub gate : TaskGate
  pub rest : List TaskGate
  pub holds : get_elem? gs i ≡ some gate
  pub is_open : gate.checked ≡ false
  pub is_first : open_gates gs ≡ gate ∷ rest

pub first_open-FirstOpenAt :
    (gs : List TaskGate) (i : ℕ) → first_open gs ≡ some i → FirstOpenAt gs i
unfolding first_open open_gates
first_open-FirstOpenAt [] i h = cc
first_open-FirstOpenAt (g ∷ gs) i h = elim (Bool-cases g.checked) [
  | inr e ↦ record {
    gate = g;
    rest = open_gates gs;
    holds = ground arith;
    is_open = e;
    is_first = rw e refl;
  }
  | inl e ↦ elim (Option-cases (first_open gs)) [
    | inl n ↦ ground arith
    | inr (j, f) ↦
        let r = first_open-FirstOpenAt gs j f in
        record {
          gate = r.gate;
          rest = r.rest;
          holds = ground (arith, r.holds);
          is_open = r.is_open;
          is_first = rw e r.is_first;
        }
  ]
]

-- The gate that stands now where the first open one stood is checked.
pub record ClosesFirst (before after : List TaskGate) : Type 0 where
  pub index : ℕ
  pub place : first_open before ≡ some index
  pub prior : FirstOpenAt before index
  pub current : TaskGate
  pub holds : get_elem? after index ≡ some current
  pub is_closed : current.checked ≡ true

-- The first open gate stands where it did with its text, or no gate was removed.
abbrev pub KeepsFirst : List TaskGate → List TaskGate → Type 0
KeepsFirst before after =
    (first_open before ≡ none)
    ⊎ (length before ≤ length after)
    ⊎ ((i : ℕ) × (prior current : TaskGate) × (first_open before ≡ some i)
        × (get_elem? before i ≡ some prior)
        × (get_elem? after i ≡ some current)
        × (current.text ≡ prior.text))

check_pointer-ClosesFirst :
    (o : Option ℕ) (before after : List TaskGate)
    → first_open before ≡ o
    → check_pointer true o before after ≡ ok tt
    → ClosesFirst before after
check_pointer-ClosesFirst none before after e h = cc
check_pointer-ClosesFirst (some i) before after e h = elim (Option-cases (get_elem? after i)) [
  | inl n ↦ ground arith
  | inr (g, k) ↦ record {
    index = i;
    place = e;
    prior = first_open-FirstOpenAt before i e;
    current = g;
    holds = k;
    is_closed = ground arith;
  }
]

check_pointer-KeepsFirst :
    (o : Option ℕ) (before after : List TaskGate)
    → first_open before ≡ o
    → check_pointer false o before after ≡ ok tt
    → KeepsFirst before after
check_pointer-KeepsFirst none before after e h = inl e
check_pointer-KeepsFirst (some i) before after e h =
    elim (Bool-cases (ltb (length after) (length before))) [
      | inr l ↦ inr (inl (ground arith))
      | inl l ↦
          let r = first_open-FirstOpenAt before i e in
          elim (Option-cases (get_elem? after i)) [
            | inl n ↦ ground (arith, r.holds)
            | inr (g, k) ↦ inr (
                inr (
                  i,
                  r.gate,
                  g,
                  e,
                  r.holds,
                  k,
                  ground (arith, r.holds, text_eq_iff g.text r.gate.text),
                ))
          ]
    ]

-- An edit that leaves the task's status, its sessions and its mode. On a monitor board any gates
-- may change; elsewhere the count of checked gates rises by one and the gate in the place of the
-- first open one is checked, or the count does not rise.
pub record IsPointerEdit (before after : TaskDocument) : Type 0 where
  pub status_kept : after.status ≡ before.status
  pub sessions_kept : after.sessions ≡ before.sessions
  pub mode_kept : is_monitor_board after ≡ is_monitor_board before
  pub pointer :
      (is_monitor_board before ≡ true)
      ⊎ (((progress after).0 ≡ (progress before).0 + 1) × ClosesFirst (gates before) (gates after))
      ⊎ (((progress after).0 ≤ (progress before).0) × KeepsFirst (gates before) (gates after))

bool_eq-eq : (a b : Bool) → bool_eq a b ≡ true → a ≡ b
unfolding bool_eq
bool_eq-eq true b h = sym h
bool_eq-eq false true h = cc
bool_eq-eq false false h = refl

pub check_documents-IsPointerEdit :
    (before after : TaskDocument)
    → check_documents before after ≡ ok tt
    → IsPointerEdit before after
unfolding check_documents
check_documents-IsPointerEdit before after h =
    let a : (same_authority after before ≡ true)
        × (bool_eq (is_monitor_board after) (is_monitor_board before) ≡ true) =
      (ground arith, ground arith) in
    let k = same_authority-eq after before a.0 in
    record {
      status_kept = k.0;
      sessions_kept = k.1;
      mode_kept = bool_eq-eq (is_monitor_board after) (is_monitor_board before) a.1;
      pointer = elim (Bool-cases (is_monitor_board before)) [
        | inl b ↦ inl b
        | inr b ↦ elim (Bool-cases ((progress after).0 == (progress before).0 + 1)) [
          | inl e ↦ inr (
              inl (
                ground arith,
                check_pointer-ClosesFirst (first_open (gates before)) (gates before) (gates after)
                    refl (ground (arith, a.0, a.1)),
              ))
          | inr e ↦ inr (
              inr (
                ground (arith, a.0, a.1),
                check_pointer-KeepsFirst (first_open (gates before)) (gates before) (gates after)
                    refl (ground (arith, a.0, a.1)),
              ))
        ]
      ];
    }

-- An admitted text, with what it parses to.
pub record Admitted (original candidate : Text) : Type 0 where
  pub before : TaskDocument
  pub after : TaskDocument
  pub before_parsed : parse original ≡ ok before
  pub after_parsed : parse candidate ≡ ok after
  pub checked : check_documents before after ≡ ok tt
  pub edit : IsPointerEdit before after

parsed-eq :
    (r : Result DocumentError TaskDocument) {d : TaskDocument}
    → map_err unparsed r ≡ ok d
    → r ≡ ok d
parsed-eq (ok d) h = cc
parsed-eq (err e) h = cc

-- A candidate that passes the check parses as the present text does, with the status, the sessions
-- and the mode of the task. Where it is no monitor board, the count of checked gates rises by one,
-- and the gate that stands in the place of the first open one is checked; or the count does not
-- rise, and in the place of the first open gate stands one with its text, or there are no fewer
-- gates than before, or none was open.
pub validate_task_candidate-Admitted :
    (original candidate : Text)
    → validate_task_candidate original candidate ≡ ok tt
    → Admitted original candidate
unfolding validate_task_candidate
validate_task_candidate-Admitted original candidate h =
    let (before, p, h1) = >>=-eq-ok (map_err unparsed (parse original)) _ h in
    let (after, q, h2) = >>=-eq-ok (map_err unparsed (parse candidate)) _ h1 in
    record {
      before = before;
      after = after;
      before_parsed = parsed-eq (parse original) p;
      after_parsed = parsed-eq (parse candidate) q;
      checked = h2;
      edit = check_documents-IsPointerEdit before after h2;
    }
