-- ===== src/GateEdit/Completed.antt =====
-- What `complete_next_gate` writes is an edit that the hooks admit.
use playbook_harness.Base.{
  ℕ, suc, ◌+◌, ◌≡◌, refl, sym, inl, inr, Bool, true, false, some, List, [], ◌∷◌, arith, ok,
  get_elem?, Bool-cases, ==_refl,
}
use playbook_harness.Text.{Text}
use playbook_harness.Identity.{SessionKey}
use playbook_harness.TaskDocument.Document.{
  TaskGate, TaskDocument, parse, gates, progress, is_monitor_board,
}
use playbook_harness.TaskDocument.Claim.{owned_by}
use playbook_harness.TaskDocument.Gates.{open_gates, complete_next_gate}
use playbook_harness.TaskDocument.NextGate.{check_first, open_gates-check_first}
use playbook_harness.TaskDocument.GateClosed.{complete_next_gate-closes_first}
use playbook_harness.TaskDocument.Replace.{TaskGateClosure, same_authority}
use playbook_harness.TaskDocument.Ownership.{status_eq_iff, sessions_eq_iff}
use playbook_harness.GateEdit.Validate.{
  first_open, check_documents, validate_task_candidate, zip_closures, closure_between,
  gate_closure_from_documents, bool_eq,
}

same_authority-same :
    (a b : TaskDocument) → a.status ≡ b.status → a.sessions ≡ b.sessions → same_authority a b ≡ true
unfolding same_authority
same_authority-same a b s k =
    ground
      (arith, (status_eq_iff a.status b.status).1 s, (sessions_eq_iff a.sessions b.sessions).1 k)

bool_eq_same : (a b : Bool) → a ≡ b → bool_eq a b ≡ true
unfolding bool_eq
bool_eq_same true b h = sym h
bool_eq_same false b h = rw (sym h) refl

abbrev closed : TaskGate → TaskGate
closed g = record g { checked = true }

-- Where the first open gate stands, the checked one stands.
abbrev FirstChecked : List TaskGate → TaskGate → Type 0
FirstChecked gs g =
    (i : ℕ) × (first_open gs ≡ some i)
    × (get_elem? gs i ≡ some g)
    × (get_elem? (check_first gs) i ≡ some (closed g))

first_checked :
    (gs : List TaskGate) {g : TaskGate} {rest : List TaskGate}
    → open_gates gs ≡ g ∷ rest
    → FirstChecked gs g
unfolding first_open open_gates check_first
first_checked [] h = cc
first_checked (x ∷ gs) {g} {rest} h = elim (Bool-cases x.checked) [
  | inr e ↦ (0, rw e refl, ground (arith, e), ground (arith, e))
  | inl e ↦
      let (i, f, k, c) = first_checked gs {g = g} {rest = rest} (ground (arith, e)) in
      (suc i, rw (e, f) refl, k, rw e c)
]

abbrev closure : TaskGate → TaskGateClosure
closure g = record { line = g.line; before = g.text; after = g.text }

zip_closures_same : (gs : List TaskGate) → zip_closures gs gs ≡ []
unfolding zip_closures
zip_closures_same [] = refl
zip_closures_same (x ∷ gs) = ground (arith, zip_closures_same gs)

zip_closures-check_first :
    (gs : List TaskGate) {g : TaskGate} {rest : List TaskGate}
    → open_gates gs ≡ g ∷ rest
    → zip_closures gs (check_first gs) ≡ closure g ∷ []
unfolding zip_closures check_first open_gates
zip_closures-check_first [] h = cc
zip_closures-check_first (x ∷ gs) {g} {rest} h =
    ground (arith, zip_closures_same gs, zip_closures-check_first gs {g = g} {rest = rest})

module _ (d after : TaskDocument) (g : TaskGate) (rest : List TaskGate)
    (gates_after : gates after ≡ check_first (gates d))
    (mode : is_monitor_board after ≡ is_monitor_board d)
    (opened : open_gates (gates d) ≡ g ∷ rest) where
  check_documents-ok :
      after.status ≡ d.status → after.sessions ≡ d.sessions → check_documents d after ≡ ok tt
  unfolding check_documents
  check_documents-ok s k =
      let (i, f, p, c) = first_checked (gates d) {g = g} {rest = rest} opened in
      let n = open_gates-check_first (gates d) {rest = rest} opened in
      rw
        (
          same_authority-same after d s k,
          bool_eq_same _ _ mode,
          gates_after,
          f,
          n.1,
          ==_refl ((progress d).0 + 1),
          c,
        )
        (ground arith)

  closure_between-check_first : closure_between d after ≡ ok (some (closure g))
  unfolding closure_between
  closure_between-check_first =
      let (i, f, p, c) = first_checked (gates d) {g = g} {rest = rest} opened in
      let n = open_gates-check_first (gates d) {rest = rest} opened in
      rw
        (
          gates_after,
          f,
          c,
          p,
          n.1,
          n.2,
          zip_closures-check_first (gates d) {g = g} {rest = rest} opened,
        )
        (ground arith)

-- Whoever owns a task and completes its next gate writes a text that passes the check of an edit,
-- on a monitor board too, and whose one closure is that gate with the text it had.
pub complete_next_gate-admitted :
    (original : Text) (claimant : SessionKey) (d : TaskDocument) (g : TaskGate)
    (rest : List TaskGate)
    → parse original ≡ ok d
    → owned_by d claimant ≡ ok tt
    → open_gates (gates d) ≡ g ∷ rest
    → (validate_task_candidate original (complete_next_gate original claimant).1 ≡ ok tt)
      × (gate_closure_from_documents original (complete_next_gate original claimant).1
          ≡ ok (some (record { line = g.line; before = g.text; after = g.text })))
unfolding validate_task_candidate gate_closure_from_documents
complete_next_gate-admitted original claimant d g rest p own h =
    let (up, r, c) = complete_next_gate-closes_first original claimant d g rest p own h in
    let k : check_documents d c.after ≡ ok tt =
      check_documents-ok d c.after g rest c.gates_after c.mode_kept h c.status_kept
        c.sessions_kept in
    let f : closure_between d c.after ≡ ok (some (closure g)) =
      closure_between-check_first d c.after g rest c.gates_after c.mode_kept h in
    (rw (p, c.parsed) k, rw (p, c.parsed, k) f)
