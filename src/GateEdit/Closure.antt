-- ===== src/GateEdit/Closure.antt =====
-- The gate that an admitted edit closes is found, and nothing else is raised.
use playbook_harness.Base.{
  ℕ, suc, ◌+◌, ◌≡◌, ◌≢◌, refl, ◌⊎◌, inl, inr, true, false, Option, none, some, List, [], ◌∷◌, arith,
  ◌==◌, Result, ok, err, length, get_elem?, Bool-cases, Result-cases, ==_iff,
}
use playbook_harness.Text.{Text}
use playbook_harness.TaskDocument.Document.{
  TaskGate, TaskDocument, gates, progress, is_monitor_board,
}
use playbook_harness.TaskDocument.Replace.{TaskGateClosure}
use playbook_harness.GateEdit.Candidate.{}
use playbook_harness.GateEdit.Validate.{
  first_open, validate_task_candidate, ClosureFailure, invalid, parse_failure, stop_iteration,
  index_error, zip_closures, only, closure_between, gate_closure_from_documents,
}
use playbook_harness.GateEdit.Pointer.{
  IsPointerEdit, Admitted, ClosesFirst, validate_task_candidate-Admitted,
}

-- The gate at one place is open before and checked after, and the closure tells of it.
pub record IsClosure (before after : List TaskGate) (k : TaskGateClosure) : Type 0 where
  pub index : ℕ
  pub prior : TaskGate
  pub current : TaskGate
  pub prior_holds : get_elem? before index ≡ some prior
  pub current_holds : get_elem? after index ≡ some current
  pub opened : prior.checked ≡ false
  pub closed : current.checked ≡ true
  pub told : k ≡ record { line = current.line; before = prior.text; after = current.text }

-- The gate that was closed, and whether it had to be the first open one.
abbrev pub ClosureFound : TaskDocument → TaskDocument → Option TaskGateClosure → Type 0
ClosureFound before after none =
    (is_monitor_board before ≡ true) ⊎ ((progress after).0 ≢ (progress before).0 + 1)
ClosureFound before after (some k) =
    (c : IsClosure (gates before) (gates after) k) × ((is_monitor_board before ≡ true)
      ⊎ (first_open (gates before) ≡ some c.index))

abbrev pub ClosureOutcome : Text → Text → Result ClosureFailure (Option TaskGateClosure) → Type 0
ClosureOutcome original candidate (ok found) =
    (a : Admitted original candidate) × ClosureFound a.before a.after found
ClosureOutcome original candidate (err (invalid e)) =
    validate_task_candidate original candidate ≡ err e
ClosureOutcome original candidate (err (parse_failure e)) = ⊥
ClosureOutcome original candidate (err stop_iteration) = ⊥
ClosureOutcome original candidate (err index_error) = ⊥

IsClosure-suc :
    (g h : TaskGate) (before after : List TaskGate) (k : TaskGateClosure)
    → IsClosure before after k
    → IsClosure (g ∷ before) (h ∷ after) k
IsClosure-suc g h before after k c = record {
  index = suc c.index;
  prior = c.prior;
  current = c.current;
  prior_holds = c.prior_holds;
  current_holds = c.current_holds;
  opened = c.opened;
  closed = c.closed;
  told = c.told;
}

zip_closures-IsClosure :
    (before after : List TaskGate) {k : TaskGateClosure} {rest : List TaskGateClosure}
    → zip_closures before after ≡ k ∷ rest
    → IsClosure before after k
unfolding zip_closures
zip_closures-IsClosure [] after h = cc
zip_closures-IsClosure (g ∷ before) [] h = cc
zip_closures-IsClosure (g ∷ before) (c ∷ after) {k} {rest} h = elim (Bool-cases g.checked) [
  | inl e ↦
      IsClosure-suc g c before after k
        (zip_closures-IsClosure before after {k = k} {rest = rest} (ground arith))
  | inr e ↦ elim (Bool-cases c.checked) [
    | inr f ↦
        IsClosure-suc g c before after k
          (zip_closures-IsClosure before after {k = k} {rest = rest} (ground arith))
    | inl f ↦ record {
      index = 0;
      prior = g;
      current = c;
      prior_holds = refl;
      current_holds = refl;
      opened = e;
      closed = f;
      told = ground arith;
    }
  ]
]

only-ClosureFound :
    (before after : TaskDocument) (ks : List TaskGateClosure)
    → is_monitor_board before ≡ true
    → zip_closures (gates before) (gates after) ≡ ks
    → ClosureFound before after (only ks)
only-ClosureFound before after [] b e = inl b
only-ClosureFound before after (k ∷ []) b e =
    (zip_closures-IsClosure (gates before) (gates after) {k = k} {rest = []} e, inl b)
only-ClosureFound before after (k ∷ j ∷ ks) b e = inl b

-- The two documents' closure is found.
abbrev pub Found : TaskDocument → TaskDocument → Type 0
Found before after =
    (found : Option TaskGateClosure) × (closure_between before after ≡ ok found)
    × ClosureFound before after found

pointer_closure-Found :
    (before after : TaskDocument)
    → is_monitor_board before ≡ false
    → (progress after).0 ≡ (progress before).0 + 1
    → ClosesFirst (gates before) (gates after)
    → Found before after
unfolding closure_between
pointer_closure-Found before after b e c =
    let p = c.prior in
    let k : TaskGateClosure = record {
      line = c.current.line;
      before = p.gate.text;
      after = c.current.text;
    } in
    let q : (((progress after).0 == (progress before).0 + 1) ≡ true) = (==_iff _ _).1 e in
    (
      some k,
      rw (b, q, c.place, c.holds, p.holds) refl,
      (
        record {
          index = c.index;
          prior = p.gate;
          current = c.current;
          prior_holds = p.holds;
          current_holds = c.holds;
          opened = p.is_open;
          closed = c.is_closed;
          told = refl;
        },
        inr c.place,
      ),
    )

closure_between-Found :
    (before after : TaskDocument) → IsPointerEdit before after → Found before after
unfolding closure_between
closure_between-Found before after i = elim (Bool-cases (is_monitor_board before)) [
  | inl b ↦ elim (Bool-cases (length (gates before) == length (gates after))) [
    | inl l ↦ (
      _,
      rw (b, l) refl,
      only-ClosureFound before after (zip_closures (gates before) (gates after)) b refl,
    )
    | inr l ↦ (none, rw (b, l) refl, inl b)
  ]
  | inr b ↦ elim i.pointer [
    | inl c ↦ absurd (ground arith)
    | inr (inl (e, c)) ↦ pointer_closure-Found before after b e c
    | inr (inr (e, c)) ↦
        let q : (((progress after).0 == (progress before).0 + 1) ≡ false) = ground arith in
        (none, rw (b, q) refl, inr (omega (arith, e)))
  ]
]

-- The one closure of the change is found whenever the check passes: nothing else is raised than
-- the error of the check. A closure that is returned is of a gate that was open and is checked
-- at the same place, the first open one where the task is no monitor board; and there none is
-- returned only if no gate more is checked.
pub gate_closure_from_documents-total :
    (original candidate : Text)
    → ClosureOutcome original candidate (gate_closure_from_documents original candidate)
unfolding gate_closure_from_documents
gate_closure_from_documents-total original candidate =
    elim (Result-cases (validate_task_candidate original candidate)) [
      | inl (e, h) ↦ rw h h
      | inr (u, h) ↦
          let a = validate_task_candidate-Admitted original candidate h in
          let (found, f, c) = closure_between-Found a.before a.after a.edit in
          rw (h, a.before_parsed, a.after_parsed, f) (a, c)
    ]
