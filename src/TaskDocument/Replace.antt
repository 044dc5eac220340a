-- ===== src/TaskDocument/Replace.antt =====
-- Edits of a claimed or an unclaimed task by replacing text, and the gates that they close.
use playbook_harness.Base.{
  ℕ, ◌+◌, Bool, true, false, not, ◌&&◌, ◌||◌, Option, none, some, List, [], ◌∷◌, ◌++◌, ◌==◌,
  if◌then◌else◌, Result, ok, err, ◌>>=◌, ltb, is_empty, length,
}
use playbook_harness.Text.{Text, text_eq}
use playbook_harness.Text.Lines.{splitlines}
use playbook_harness.Text.Edit.{count, replace_first, replace_all}
use playbook_harness.Identity.{SessionKey, key_eq}
use playbook_harness.TaskDocument.Grammar.{gate_match}
use playbook_harness.TaskDocument.Document.{
  DocumentError, empty_old_text, old_text_missing, ambiguous_edit, authority_changed, many_gates,
  cas_mismatch, claim_conflict, Status, pending, in_progress, done, TaskGate, TaskDocument, parse,
  gates, progress, is_checked_mark, live_owner,
}
use playbook_harness.TaskDocument.Claim.{Step, owned_by}

pub record TaskGateClosure : Type 0 where
  pub line : ℕ
  pub before : Text
  pub after : Text

-- `before_by_line.get(line)`
unfoldable pub gate_on : ℕ → List TaskGate → Option TaskGate
gate_on i [] = none
gate_on i (g ∷ gs) = if g.line == i then some g else gate_on i gs

abbrev closes : Option TaskGate → TaskGate → List TaskGateClosure
closes none g = []
closes (some prior) g =
    if not prior.checked && g.checked
    then record { line = g.line; before = prior.text; after = g.text } ∷ []
    else []

-- `_closed_gates`
unfoldable pub closed_gates : List TaskGate → List TaskGate → List TaskGateClosure
unfolding gate_on
closed_gates before [] = []
closed_gates before (g ∷ gs) = closes (gate_on g.line before) g ++ closed_gates before gs

-- The boxes of the lines of a text. The pattern reads a line alike with and without its end.
unfoldable pub boxes : List Text → List (ℕ × Text)
boxes [] = []
boxes (l ∷ ls) = let rest = boxes ls in elim (gate_match l) [ none ↦ rest | some g ↦ g ∷ rest ]

-- The pairs of an open box and a checked one, `zip`ped.
unfoldable pub transitions : List (ℕ × Text) → List (ℕ × Text) → List (Text × Text)
transitions (p ∷ ps) (c ∷ cs) =
    let rest = transitions ps cs in
    if p.0 == b' ' && is_checked_mark c.0 then (p.1, c.1) ∷ rest else rest
transitions _ _ = []

-- `[gate for gate in after.gates if gate.checked and gate.text == text]`
unfoldable pub checked_with : Text → List TaskGate → List TaskGate
checked_with text [] = []
checked_with text (g ∷ gs) =
    let rest = checked_with text gs in if g.checked && text_eq g.text text then g ∷ rest else rest

abbrev unique_closure : Text × Text → List TaskGate → List TaskGateClosure
unique_closure t (g ∷ []) = record { line = g.line; before = t.0; after = t.1 } ∷ []
unique_closure t [] = []
unique_closure t (g ∷ h ∷ gs) = []

unfoldable pub located : List (Text × Text) → List TaskGate → List TaskGateClosure
unfolding checked_with
located [] after = []
located (t ∷ ts) after = unique_closure t (checked_with t.1 after) ++ located ts after

-- `_replacement_gate_closures`
unfoldable pub replacement_gate_closures : TaskDocument → Text → Text → List TaskGateClosure
replacement_gate_closures after old new =
    located (transitions (boxes (splitlines old)) (boxes (splitlines new))) (gates after)

-- `closures`, with the comparison by lines where the replaced text shows none.
unfoldable pub find_closures :
    TaskDocument → TaskDocument → Text → Text → TaskDocument → List TaskGateClosure
find_closures shown before old new after =
    let found = replacement_gate_closures shown old new in
    if is_empty found then closed_gates (gates before) (gates after) else found

pub record Edited : Type 0 where
  pub document : TaskDocument
  pub closures : List TaskGateClosure
  pub changed : Bool

unfoldable pub status_eq : Status → Status → Bool
status_eq pending pending = true
status_eq in_progress in_progress = true
status_eq done done = true
status_eq _ _ = false

unfoldable pub sessions_eq : List SessionKey → List SessionKey → Bool
sessions_eq [] [] = true
sessions_eq (k ∷ ks) (j ∷ js) = key_eq k j && sessions_eq ks js
sessions_eq _ _ = false

unfoldable pub same_authority : TaskDocument → TaskDocument → Bool
same_authority a b = status_eq a.status b.status && sessions_eq a.sessions b.sessions

abbrev is_single {ℓ} : {A : Type ℓ} → List A → Bool
is_single (x ∷ []) = true
is_single _ = false

-- The edit is in the text already: the closure that it made, if there is exactly one.
abbrev replayed : TaskDocument → TaskDocument → Text → Text → Result DocumentError Edited
replayed before replay_before old new =
    let closures = find_closures before replay_before old new before in
    if same_authority replay_before before && is_single closures
    then ok (record { document = before; closures = closures; changed = false })
    else err old_text_missing

unfoldable pub recognize : Text → TaskDocument → Text → Text → Bool → Result DocumentError Edited
recognize original before old new recognize_replay =
    if recognize_replay && count new original == 1
    then (do
      replay_before ← parse (replace_first new old original)
      replayed before replay_before old new)
    else err old_text_missing

-- The checks on the candidate, before it is written.
unfoldable pub admit_candidate :
    TaskDocument → Text → Text → TaskDocument → Result DocumentError Edited
admit_candidate before old new after =
    let closures = find_closures after before old new after in
    if not (same_authority after before)
    then err authority_changed
    else if ltb ((progress before).0 + 1) (progress after).0 || ltb 1 (length closures)
    then err many_gates
    else ok (record { document = after; closures = closures; changed = true })

abbrev pub settle : Text → Text → Result DocumentError Edited → Step Edited
settle original candidate (err e) = (err e, original)
settle original candidate (ok r) = (ok r, candidate)

unfoldable pub edit_owned : Text → TaskDocument → Text → Text → Bool → Bool → Step Edited
edit_owned original before old new every recognize_replay =
    let occurrences = count old original in
    if occurrences == 0
    then (recognize original before old new recognize_replay, original)
    else if ltb 1 occurrences && not every
    then (err ambiguous_edit, original)
    else let candidate =
        if every then replace_all old new original else replace_first old new original in
      settle original candidate (do after ← parse candidate; admit_candidate before old new after)

abbrev pub edit_allowed :
    Text → TaskDocument → Text → Text → Bool → Bool → Result DocumentError (Unit {0}) → Step Edited
edit_allowed original before old new every replay (err e) = (err e, original)
edit_allowed original before old new every replay (ok _) =
    edit_owned original before old new every replay

abbrev edit_parsed :
    Text → Result DocumentError TaskDocument → SessionKey → Text → Text → Bool → Bool → Step Edited
edit_parsed original (err e) claimant old new every replay = (err e, original)
edit_parsed original (ok before) claimant old new every replay =
    edit_allowed original before old new every replay (owned_by before claimant)

-- `replace_claimed_task_text_with_closures`; `every` is `replace_all`.
unfoldable pub replace_claimed_task_text_with_closures :
    Text → SessionKey → Text → Text → Bool → Bool → Step Edited
replace_claimed_task_text_with_closures original claimant old new every recognize_replay =
    if is_empty old
    then (err empty_old_text, original)
    else edit_parsed original (parse original) claimant old new every recognize_replay

abbrev edited_document : Result DocumentError Edited → Result DocumentError TaskDocument
edited_document r = do edited ← r; ok edited.document

-- `replace_claimed_task_text`
unfoldable pub replace_claimed_task_text :
    Text → SessionKey → Text → Text → Bool → Step TaskDocument
replace_claimed_task_text original claimant old new every =
    let (r, t) = replace_claimed_task_text_with_closures original claimant old new every false in
    (edited_document r, t)

abbrev require_unclaimed : Option SessionKey → Result DocumentError (Unit {0})
require_unclaimed none = ok tt
require_unclaimed (some owner) = err (claim_conflict owner)

abbrev expand : Text → Text → Result DocumentError TaskDocument → Step TaskDocument
expand original new (err e) = (err e, original)
expand original new (ok after) = (ok after, new)

-- `replace_unclaimed_task_text`
unfoldable pub replace_unclaimed_task_text : Text → Text → Text → Step TaskDocument
replace_unclaimed_task_text original old new =
    if not (text_eq original old)
    then (err cas_mismatch, original)
    else expand original new (do
      before ← parse original
      owner ← live_owner before
      free ← require_unclaimed owner
      after ← parse new
      (if same_authority after before then ok after else err authority_changed))
