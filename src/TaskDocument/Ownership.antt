-- ===== src/TaskDocument/Ownership.antt =====
-- What the owner of a task may rely on: no operation of another conversation writes to its task.
use playbook_harness.Base.{
  ◌≡◌, refl, ◌↔◌, Bool, true, false, none, some, List, [], ◌∷◌, ok, err, arith,
}
use playbook_harness.Text.{Text, text_eq_iff}
use playbook_harness.Identity.{SessionKey, key_eq}
use playbook_harness.TaskDocument.Document.{
  claim_conflict, TaskDocument, Status, in_progress, parse, live_owner,
}
use playbook_harness.TaskDocument.Claim.{claim_task_document, complete_task_document, claim_verdict}
use playbook_harness.TaskDocument.Gates.{complete_next_gate}
use playbook_harness.TaskDocument.Replace.{
  status_eq, sessions_eq, replace_claimed_task_text_with_closures,
}

pub key_eq_iff : (a b : SessionKey) → (key_eq a b ≡ true) ↔ (a ≡ b)
unfolding key_eq
key_eq_iff a b =
    ground (arith, text_eq_iff a.provider b.provider, text_eq_iff a.session_id b.session_id)

pub status_eq_iff : (a b : Status) → (status_eq a b ≡ true) ↔ (a ≡ b)
unfolding status_eq
status_eq_iff a b = ground arith

pub sessions_eq_iff : (a b : List SessionKey) → (sessions_eq a b ≡ true) ↔ (a ≡ b)
unfolding sessions_eq
sessions_eq_iff [] [] = ground arith
sessions_eq_iff (k ∷ ks) (j ∷ js) = ground (arith, key_eq_iff k j, sessions_eq_iff ks js)
sessions_eq_iff [] (j ∷ js) = ground arith
sessions_eq_iff (k ∷ ks) [] = ground arith

pub live_owner-in_progress :
    (d : TaskDocument) {owner : SessionKey}
    → live_owner d ≡ ok (some owner)
    → d.status ≡ in_progress
unfolding live_owner
live_owner-in_progress d h = ground arith

module _ (original : Text) (d : TaskDocument) (owner claimant : SessionKey)
    (parsed : parse original ≡ ok d) (owned : live_owner d ≡ ok (some owner))
    (foreign : key_eq owner claimant ≡ false) where
  claim_foreign :
      claim_task_document original claimant none ≡ (err (claim_conflict owner), original)
  unfolding claim_task_document claim_verdict
  claim_foreign = rw (parsed, owned, foreign)

  complete_foreign :
      complete_task_document original claimant ≡ (err (claim_conflict owner), original)
  unfolding complete_task_document
  complete_foreign = rw parsed (ground (arith, live_owner-in_progress d owned))

  next_gate_foreign : complete_next_gate original claimant ≡ (err (claim_conflict owner), original)
  unfolding complete_next_gate
  next_gate_foreign = rw (parsed, owned, foreign)

  replace_foreign :
      (old new : Text) (every replay : Bool)
      → (replace_claimed_task_text_with_closures original claimant old new every replay).1
        ≡ original
  unfolding replace_claimed_task_text_with_closures
  replace_foreign [] new every replay = refl
  replace_foreign (o ∷ old) new every replay = rw (parsed, owned, foreign)

  -- While a conversation owns a task, another one that claims it without naming the owner,
  -- completes it or checks a gate gets the conflict and writes nothing, and no edit by it is written.
  pub foreign_session_writes_nothing :
      (claim_task_document original claimant none ≡ (err (claim_conflict owner), original))
      × (complete_task_document original claimant ≡ (err (claim_conflict owner), original))
      × (complete_next_gate original claimant ≡ (err (claim_conflict owner), original))
      × ((old new : Text) (every replay : Bool)
          → (replace_claimed_task_text_with_closures original claimant old new every replay).1
            ≡ original)
  foreign_session_writes_nothing =
      (claim_foreign, complete_foreign, next_gate_foreign, replace_foreign)
