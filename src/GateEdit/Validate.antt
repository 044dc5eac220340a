-- ===== src/GateEdit/Validate.antt =====
-- `validate_task_candidate` and `gate_closure_from_documents`.
use playbook_harness.Base.{
  ℕ, suc, ◌+◌, Bool, true, false, not, ◌&&◌, Option, none, some, List, [], ◌∷◌, ◌==◌, if◌then◌else◌,
  Result, ok, err, ◌>>=◌, map_err, ltb, length, get_elem?,
}
use playbook_harness.Text.{Text, text_eq}
use playbook_harness.Json.{Members}
use playbook_harness.TaskDocument.Document.{
  DocumentError, TaskGate, TaskDocument, parse, gates, progress, is_monitor_board,
}
use playbook_harness.TaskDocument.Replace.{TaskGateClosure, same_authority}
use playbook_harness.GateEdit.Candidate.{
  GateEditError, unparsed, authority_edited, marker_edited, many_closed, no_open, skipped, removed,
  candidate_from_tool_input,
}

abbrev pub first_open_behind : Bool → Option ℕ → Option ℕ
first_open_behind false rest = some 0
first_open_behind true none = none
first_open_behind true (some i) = some (suc i)

-- `next((index for index, gate in enumerate(gates) if not gate.checked), None)`
unfoldable pub first_open : List TaskGate → Option ℕ
first_open [] = none
first_open (g ∷ gs) = first_open_behind g.checked (first_open gs)

abbrev pub checked_at : Option TaskGate → Bool
checked_at none = false
checked_at (some g) = g.checked

abbrev pub same_text : Option TaskGate → Option TaskGate → Bool
same_text (some g) (some h) = text_eq g.text h.text
same_text _ _ = false

-- The rules on the first open gate; `closing` says that one gate more is checked.
abbrev pub check_pointer :
    Bool → Option ℕ → List TaskGate → List TaskGate → Result GateEditError (Unit {0})
check_pointer true none before after = err no_open
check_pointer true (some i) before after =
    if not (checked_at (get_elem? after i)) then err skipped else ok tt
check_pointer false none before after = ok tt
check_pointer false (some i) before after =
    if ltb (length after) (length before)
      && not (same_text (get_elem? after i) (get_elem? before i))
    then err removed
    else ok tt

unfoldable pub bool_eq : Bool → Bool → Bool
bool_eq true b = b
bool_eq false b = not b

unfoldable pub check_documents : TaskDocument → TaskDocument → Result GateEditError (Unit {0})
check_documents before after =
    if not (same_authority after before)
    then err authority_edited
    else if not (bool_eq (is_monitor_board after) (is_monitor_board before))
    then err marker_edited
    else if is_monitor_board before
    then ok tt
    else if ltb ((progress before).0 + 1) (progress after).0
    then err many_closed
    else check_pointer ((progress after).0 == (progress before).0 + 1) (first_open (gates before))
        (gates before) (gates after)

unfoldable pub validate_task_candidate : Text → Text → Result GateEditError (Unit {0})
validate_task_candidate original candidate = do
  before ← map_err unparsed (parse original)
  after ← map_err unparsed (parse candidate)
  check_documents before after

-- What `gate_closure_from_documents` raises: the error of the check, and what Python raises for a
-- second parse, an empty `next` and an index out of range.
pub data ClosureFailure : Type 0 where
  invalid : GateEditError → ClosureFailure
  parse_failure : DocumentError → ClosureFailure
  stop_iteration index_error : ClosureFailure

-- The gates that are open in the one list and checked at the same place of the other.
unfoldable pub zip_closures : List TaskGate → List TaskGate → List TaskGateClosure
zip_closures (prior ∷ ps) (current ∷ cs) =
    let rest = zip_closures ps cs in
    if not prior.checked && current.checked
    then record { line = current.line; before = prior.text; after = current.text } ∷ rest
    else rest
zip_closures _ _ = []

abbrev pub only {ℓ} : {A : Type ℓ} → List A → Option A
only (x ∷ []) = some x
only _ = none

abbrev pub closure_at :
    Option TaskGate → Option TaskGate → Result ClosureFailure (Option TaskGateClosure)
closure_at (some current) (some prior) =
    ok (some (record { line = current.line; before = prior.text; after = current.text }))
closure_at _ _ = err index_error

abbrev pub pointer_closure :
    Option ℕ → List TaskGate → List TaskGate → Result ClosureFailure (Option TaskGateClosure)
pointer_closure none before after = err stop_iteration
pointer_closure (some i) before after = closure_at (get_elem? after i) (get_elem? before i)

unfoldable pub closure_between :
    TaskDocument → TaskDocument → Result ClosureFailure (Option TaskGateClosure)
closure_between before after =
    if is_monitor_board before
    then (if not (length (gates before) == length (gates after))
        then ok none
        else ok (only (zip_closures (gates before) (gates after))))
    else if not ((progress after).0 == (progress before).0 + 1)
    then ok none
    else pointer_closure (first_open (gates before)) (gates before) (gates after)

unfoldable pub gate_closure_from_documents :
    Text → Text → Result ClosureFailure (Option TaskGateClosure)
gate_closure_from_documents original candidate = do
  checked ← map_err invalid (validate_task_candidate original candidate)
  before ← map_err parse_failure (parse original)
  after ← map_err parse_failure (parse candidate)
  closure_between before after

-- `validate_structured_task_edit`, on the text of the file.
unfoldable pub validate_structured_task_edit :
    Text → Text → Members → Result GateEditError (Unit {0})
validate_structured_task_edit original tool_name tool_input = do
  candidate ← candidate_from_tool_input original tool_name tool_input
  validate_task_candidate original candidate
