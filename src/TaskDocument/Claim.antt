-- ===== src/TaskDocument/Claim.antt =====
-- Claiming and completing a task. An operation takes the text of task.md, and gives its result and
-- the text that it leaves.
use playbook_harness.Base.{
  Bool, true, false, not, ◌&&◌, ◌||◌, Option, none, some, List, [], ◌∷◌, if◌then◌else◌, Result, ok,
  err, ◌>>=◌,
}
use playbook_harness.Text.{Text, codes, text_eq}
use playbook_harness.Identity.{SessionKey, key_eq}
use playbook_harness.TaskDocument.Document.{
  DocumentError, claim_conflict, cas_mismatch, not_claimed, TaskDocument, Status, done, parse,
  live_owner,
}
use playbook_harness.TaskDocument.Render.{render, is_last_session}

abbrev pub Step {ℓ} : Type ℓ → Type ℓ
Step A = Result DocumentError A × Text

-- What a claim does: nothing more, or a commit.
pub data Verdict : Type 0 where
  keep commit : Verdict

-- `len(sessions) < 2 or sessions[-2] != expected`, negated.
unfoldable pub is_previous_session : List SessionKey → SessionKey → Bool
is_previous_session [] key = false
is_previous_session (k ∷ []) key = false
is_previous_session (k ∷ j ∷ []) key = key_eq k key
is_previous_session (k ∷ j ∷ i ∷ ks) key = is_previous_session (j ∷ i ∷ ks) key

-- The owner is the claimant: a replay, unless the caller names an owner that did not precede it.
claim_own : List SessionKey → SessionKey → Option SessionKey → Result DocumentError Verdict
claim_own sessions owner none = ok keep
claim_own sessions owner (some expected) =
    if key_eq expected owner || is_previous_session sessions expected
    then ok keep
    else err cas_mismatch

claim_other : SessionKey → Option SessionKey → Result DocumentError Verdict
claim_other owner none = err (claim_conflict owner)
claim_other owner (some expected) = if key_eq expected owner then ok commit else err cas_mismatch

claim_free : Option SessionKey → Result DocumentError Verdict
claim_free none = ok commit
claim_free (some expected) = err cas_mismatch

unfoldable pub claim_verdict :
    List SessionKey
    → Option SessionKey
    → SessionKey
    → Option SessionKey
    → Result DocumentError Verdict
unfolding claim_own claim_other claim_free
claim_verdict sessions (some owner) claimant expected =
    if key_eq owner claimant then claim_own sessions owner expected else claim_other owner expected
claim_verdict sessions none claimant expected = claim_free expected

-- `_atomic_replace`, then the parse of what was written.
abbrev pub committed : Text → Text → Step (TaskDocument × Bool)
committed original rendered =
    ((do d ← parse rendered; ok (d, not (text_eq rendered original))), rendered)

abbrev pub write : Text → Result DocumentError Text → Step (TaskDocument × Bool)
write original (err e) = (err e, original)
write original (ok rendered) = committed original rendered

abbrev pub carry_out :
    Text → TaskDocument → SessionKey → Result DocumentError Verdict → Step (TaskDocument × Bool)
carry_out original d claimant (err e) = (err e, original)
carry_out original d claimant (ok keep) = (ok (d, false), original)
carry_out original d claimant (ok commit) =
    write original (render d (some (codes "in_progress")) (some claimant))

abbrev pub claim_parsed :
    Text
    → Result DocumentError TaskDocument
    → SessionKey
    → Option SessionKey
    → Step (TaskDocument × Bool)
claim_parsed original (err e) claimant expected = (err e, original)
claim_parsed original (ok d) claimant expected =
    carry_out original d claimant
      (do owner ← live_owner d; claim_verdict d.sessions owner claimant expected)

unfoldable pub claim_task_document :
    Text → SessionKey → Option SessionKey → Step (TaskDocument × Bool)
claim_task_document original claimant expected =
    claim_parsed original (parse original) claimant expected

-- The owner that an operation of `claimant` needs.
abbrev pub require_owner : SessionKey → Option SessionKey → Result DocumentError (Unit {0})
require_owner claimant none = err not_claimed
require_owner claimant (some owner) =
    if key_eq owner claimant then ok tt else err (claim_conflict owner)

abbrev pub owned_by : TaskDocument → SessionKey → Result DocumentError (Unit {0})
owned_by d claimant = do owner ← live_owner d; require_owner claimant owner

abbrev is_done : Status → Bool
is_done done = true
is_done _ = false

abbrev pub finish : Text → Result DocumentError Text → Step TaskDocument
finish original (err e) = (err e, original)
finish original (ok rendered) = (parse rendered, rendered)

abbrev complete_parsed : Text → Result DocumentError TaskDocument → SessionKey → Step TaskDocument
complete_parsed original (err e) claimant = (err e, original)
complete_parsed original (ok d) claimant =
    if is_done d.status && is_last_session d.sessions claimant
    then (ok d, original)
    else finish original (do allowed ← owned_by d claimant; render d (some (codes "done")) none)

unfoldable pub complete_task_document : Text → SessionKey → Step TaskDocument
complete_task_document original claimant = complete_parsed original (parse original) claimant
