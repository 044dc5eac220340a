-- ===== src/GateEdit/Spliced.antt =====
-- The text that an accepted edit or patch proposes.
use playbook_harness.Base.{
  ℕ, ◌≡◌, refl, subst, ◌⊎◌, inl, inr, Bool, true, false, Option, none, some, [], ◌∷◌, arith, ok,
  >>=-eq-ok, ◌==◌, is_empty,
}
use playbook_harness.Text.{Text, codes, text_eq}
use playbook_harness.Text.Edit.{count, replace_first, replace_all}
use playbook_harness.Text.Bare.{}
use playbook_harness.Text.Splice.{IsSplice, replace_first-IsSplice, count-contains}
use playbook_harness.Json.{Json, string, Members, get, as_text}
use playbook_harness.GateEdit.Candidate.{
  GateEditError, required_text, nonempty_text, no_old_string, no_new_string, flag, splice,
  edit_once, candidate_from_tool_input,
}
use playbook_harness.GateEdit.Patch.{}

-- An accepted `Edit`: its strings, and the one occurrence that is replaced.
pub record IsEdit (original candidate : Text) (input : Members) : Type 0 where
  pub old : Text
  pub new : Text
  pub old_nonempty : is_empty old ≡ false
  pub old_given : get (codes "old_string") input ≡ some (string old)
  pub new_given : get (codes "new_string") input ≡ some (string new)
  pub replaced :
      ((flag (get (codes "replace_all") input) ≡ true) × (candidate ≡ replace_all old new original))
      ⊎ ((count old original ≡ 1) × IsSplice old new original candidate)

as_text-eq : (o : Option Json) {t : Text} → as_text o ≡ some t → o ≡ some (string t)
as_text-eq o h = ground arith

required_text-eq :
    (e : GateEditError) (o : Option Text) {t : Text} → required_text e o ≡ ok t → o ≡ some t
required_text-eq e o h = ground arith

nonempty_text-eq :
    (e : GateEditError) (o : Option Text) {t : Text}
    → nonempty_text e o ≡ ok t
    → (c : ℕ) × (s : Text) × (t ≡ c ∷ s) × (o ≡ some (c ∷ s))
nonempty_text-eq e none h = cc
nonempty_text-eq e (some []) h = cc
nonempty_text-eq e (some (c ∷ s)) {t} h = (c, s, ground arith, refl)

splice-IsSplice :
    (original : Text) (o : ℕ) (old new : Text) (every : Bool) {c : Text}
    → splice original (o ∷ old) new every ≡ ok c
    → ((every ≡ true) × (c ≡ replace_all (o ∷ old) new original))
      ⊎ ((count (o ∷ old) original ≡ 1) × IsSplice (o ∷ old) new original c)
unfolding splice
splice-IsSplice original o old new true h = inl (refl, ground arith)
splice-IsSplice original o old new false {c} h =
    let e : (count (o ∷ old) original ≡ 1) × (replace_first (o ∷ old) new original ≡ c) =
      (ground arith, ground arith) in
    let k : (count (o ∷ old) original == 0) ≡ false = ground (arith, e.0) in
    inr (
      e.0,
      subst (IsSplice (o ∷ old) new original) e.1
          (replace_first-IsSplice (o ∷ old) new original (count-contains o old original k)),
    )

-- A candidate of the tool `Edit` has the new string for the one occurrence of the old one, which is
-- not empty, and is else as the present text, or all occurrences were to be replaced and were.
pub candidate_from_tool_input-IsEdit :
    (original : Text) (input : Members) (candidate : Text)
    → candidate_from_tool_input original (codes "Edit") input ≡ ok candidate
    → IsEdit original candidate input
unfolding candidate_from_tool_input edit_once text_eq
candidate_from_tool_input-IsEdit original input candidate h =
    let (old, p, h1) =
      >>=-eq-ok (nonempty_text no_old_string (as_text (get (codes "old_string") input))) _ h in
    let (new, q, h2) =
      >>=-eq-ok (required_text no_new_string (as_text (get (codes "new_string") input))) _ h1 in
    let (c, s, e, f) =
      nonempty_text-eq no_old_string (as_text (get (codes "old_string") input)) p in
    record {
      old = c ∷ s;
      new = new;
      old_nonempty = refl;
      old_given = as_text-eq (get (codes "old_string") input) f;
      new_given = as_text-eq (get (codes "new_string") input) (required_text-eq no_new_string _ q);
      replaced =
          splice-IsSplice original c s new (flag (get (codes "replace_all") input)) (rw e at h2);
    }
