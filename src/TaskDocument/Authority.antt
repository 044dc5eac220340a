-- ===== src/TaskDocument/Authority.antt =====
-- What an edit by its owner may change.
use playbook_harness.Base.{
  ◌⊎◌, ◌≡◌, refl, ◌+◌, ◌≤◌, Bool, true, false, [], ◌∷◌, Result, ok, err, arith, length, Bool-cases,
  inl, inr, ◌>>=◌, if◌then◌else◌, not, ◌&&◌, ltb, ◌==◌,
}
use playbook_harness.Text.{Text}
use playbook_harness.Text.Edit.{count, replace_first, replace_all}
use playbook_harness.Identity.{SessionKey}
use playbook_harness.TaskDocument.Document.{DocumentError, TaskDocument, parse, progress}
use playbook_harness.TaskDocument.Claim.{owned_by}
use playbook_harness.TaskDocument.Replace.{
  Edited, edit_allowed, same_authority, replace_claimed_task_text_with_closures, edit_owned,
  admit_candidate, recognize, settle,
}
use playbook_harness.TaskDocument.Ownership.{status_eq_iff, sessions_eq_iff}

-- An admitted edit: the new text parses to the returned document, the status and the sessions are
-- the old ones, at most one closure is reported, and the count of checked gates rises by one at
-- most. An edit that closes two gates and opens another one meets this.
pub record IsAdmitted (before : TaskDocument) (r : Edited) (text : Text) : Type 0 where
  pub parsed : parse text ≡ ok r.document
  pub status_kept : r.document.status ≡ before.status
  pub sessions_kept : r.document.sessions ≡ before.sessions
  pub one_closure : length r.closures ≤ 1
  pub one_check : (progress r.document).0 ≤ (progress before).0 + 1

pub same_authority-eq :
    (a b : TaskDocument)
    → same_authority a b ≡ true
    → (a.status ≡ b.status) × (a.sessions ≡ b.sessions)
unfolding same_authority
same_authority-eq a b h =
    ground (arith, status_eq_iff a.status b.status, sessions_eq_iff a.sessions b.sessions)

admit_candidate-ok :
    (before after : TaskDocument) (old new text : Text) {r : Edited}
    → parse text ≡ ok after
    → admit_candidate before old new after ≡ ok r
    → IsAdmitted before r text × (r.changed ≡ true)
unfolding admit_candidate
admit_candidate-ok before after old new text p h = ground (arith, same_authority-eq after before)

recognize-unchanged :
    (original : Text) (before : TaskDocument) (old new : Text) (replay : Bool) {r : Edited}
    → recognize original before old new replay ≡ ok r
    → (r.document ≡ before) × (r.changed ≡ false) × (length r.closures ≡ 1)
unfolding recognize
recognize-unchanged original before old new replay h = ground arith

-- What an edit by the owner leaves, on every path.
abbrev pub EditResult : Text → TaskDocument → Result DocumentError Edited × Text → Type 0
EditResult original before (err e, text) = text ≡ original
EditResult original before (ok r, text) =
    IsAdmitted before r text × ((r.changed ≡ true) ⊎ (text ≡ original))

admitted :
    (original : Text) (before after : TaskDocument) (old new text : Text)
    → parse text ≡ ok after
    → (r : Result DocumentError Edited) → admit_candidate before old new after ≡ r
    → EditResult original before (settle original text r)
admitted original before after old new text p (err e) h = refl
admitted original before after old new text p (ok r) h =
    let (i, c) = admit_candidate-ok before after old new text p h in (i, inl c)

settled :
    (original : Text) (before : TaskDocument) (old new text : Text)
    (r : Result DocumentError TaskDocument)
    → parse text ≡ r
    → EditResult original before
        (settle original text (do after ← r; admit_candidate before old new after))
settled original before old new text (err e) p = refl
settled original before old new text (ok after) p =
    admitted original before after old new text p (admit_candidate before old new after) refl

recognized :
    (original : Text) (before : TaskDocument) (r : Result DocumentError Edited)
    → parse original ≡ ok before
    → ((e : Edited)
        → r ≡ ok e
        → (e.document ≡ before) × (e.changed ≡ false) × (length e.closures ≡ 1))
    → EditResult original before (r, original)
recognized original before (err e) p h = refl
recognized original before (ok e) p h =
    let (d, c, l) = h e refl in
    (
      record {
        parsed = rw d p;
        status_kept = rw d;
        sessions_kept = rw d;
        one_closure = omega arith;
        one_check = rw d (omega arith);
      },
      inr refl,
    )

edit_owned-EditResult :
    (original : Text) (before : TaskDocument) (old new : Text) (every replay : Bool)
    → parse original ≡ ok before
    → EditResult original before (edit_owned original before old new every replay)
unfolding edit_owned
edit_owned-EditResult original before old new every replay p =
    let candidate =
      if every then replace_all old new original else replace_first old new original in
    elim (Bool-cases (count old original == 0)) [
      | inl e ↦ rw e (
          recognized original before (recognize original before old new replay) p
            (λ r h. recognize-unchanged original before old new replay h))
      | inr e ↦ elim (Bool-cases (ltb 1 (count old original) && not every)) [
        | inl f ↦ rw (e, f) refl
        | inr f ↦ rw (e, f) (settled original before old new candidate (parse candidate) refl)
      ]
    ]

edit_allowed-EditResult :
    (original : Text) (before : TaskDocument) (old new : Text) (every replay : Bool)
    (r : Result DocumentError (Unit {0}))
    → parse original ≡ ok before
    → EditResult original before (edit_allowed original before old new every replay r)
edit_allowed-EditResult original before old new every replay (err e) p = refl
edit_allowed-EditResult original before old new every replay (ok u) p =
    edit_owned-EditResult original before old new every replay p

-- Whoever edits, and whatever the texts: a refused edit, and one that was recognised as made
-- before, writes nothing; after any other the new text parses to the returned document, with the
-- status and the sessions that it had, a count of checked gates that is larger by one at most, and at
-- most one closure reported.
pub replace_claimed-keeps_authority :
    (original : Text) (claimant : SessionKey) (old new : Text) (every replay : Bool)
    (before : TaskDocument)
    → parse original ≡ ok before
    → EditResult original before
        (replace_claimed_task_text_with_closures original claimant old new every replay)
unfolding replace_claimed_task_text_with_closures
replace_claimed-keeps_authority original claimant [] new every replay before p = refl
replace_claimed-keeps_authority original claimant (o ∷ old) new every replay before p = rw p (
    edit_allowed-EditResult original before (o ∷ old) new every replay (owned_by before claimant) p)
