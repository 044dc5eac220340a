-- ===== src/GateEdit/Patched.antt =====
-- The text that an accepted patch proposes.

use playbook_harness.Base.{
  ◌≡◌, sym, ◌∙◌, subst, inl, inr, Bool, true, false, List, [], ◌∷◌, ◌++◌, arith, ok, >>=-eq-ok,
  Bool-cases, if◌then◌else◌,
}
use playbook_harness.Text.{Text, codes}
use playbook_harness.Text.Edit.{replace_first}
use playbook_harness.Text.Bare.{contains, join_lines, bare_lines}
use playbook_harness.Text.Splice.{IsSplice, replace_first-IsSplice, contains-shorter}
use playbook_harness.GateEdit.Candidate.{}
use playbook_harness.GateEdit.Patch.{
  replace_once, old_side, new_side, apply_hunk, apply_chunks, FileUpdate, names_target,
  apply_updates, chunks_of, candidate_from_apply_patch, normalize_path, split_updates,
}

-- The chunks of the updates that name the target, in order.
unfoldable pub target_chunks : Text → List FileUpdate → List (List Text)
target_chunks target [] = []
target_chunks target (u ∷ us) =
    let rest = target_chunks target us in
    if names_target target u.path then chunks_of u.section ++ rest else rest

unfoldable pub names_any : Text → List FileUpdate → Bool
names_any target [] = false
names_any target (u ∷ us) =
    let rest = names_any target us in if names_target target u.path then true else rest

-- Each chunk replaces one occurrence of its old lines by its new ones.
abbrev pub Patched : List (List Text) → Text → Text → Type 0
Patched [] original result = result ≡ original
Patched (chunk ∷ chunks) original result =
    (next : Text) × IsSplice (join_lines (old_side chunk)) (join_lines (new_side chunk)) original
      next
    × Patched chunks next result

Patched-append :
    (cs bs : List (List Text)) (original middle result : Text)
    → Patched cs original middle
    → Patched bs middle result
    → Patched (cs ++ bs) original result
Patched-append [] bs original middle result h k = subst (λ t. Patched bs t result) h k
Patched-append (c ∷ cs) bs original middle result (next, s, h) k =
    (next, s, Patched-append cs bs next middle result h k)

-- The second look for the old lines, with a newline behind them, never succeeds.
replace_once-IsSplice :
    (text old new : Text) {result : Text}
    → replace_once text old new ≡ ok result
    → IsSplice old new text result
unfolding replace_once
replace_once-IsSplice text old new {result} h = elim (Bool-cases (contains old text)) [
  | inl e ↦
      subst (IsSplice old new text)
        (let k : replace_first old new text ≡ result = ground arith in k)
        (replace_first-IsSplice old new text e)
  | inr e ↦ absurd (ground (arith, contains-shorter old (codes "\n") text))
]

apply_hunk-IsSplice :
    (text : Text) (old new : List Text) {result : Text}
    → apply_hunk text old new ≡ ok result
    → IsSplice (join_lines old) (join_lines new) text result
apply_hunk-IsSplice text [] new h = cc
apply_hunk-IsSplice text (l ∷ ls) new h =
    replace_once-IsSplice text (join_lines (l ∷ ls)) (join_lines new) h

apply_chunks-Patched :
    (text : Text) (chunks : List (List Text)) {result : Text}
    → apply_chunks text chunks ≡ ok result
    → Patched chunks text result
unfolding apply_chunks
apply_chunks-Patched text [] h = ground arith
apply_chunks-Patched text (chunk ∷ chunks) {result} h =
    let (next, p, q) = >>=-eq-ok (apply_hunk text (old_side chunk) (new_side chunk)) _ h in
    (
      next,
      apply_hunk-IsSplice text (old_side chunk) (new_side chunk) p,
      apply_chunks-Patched next chunks {result = result} q,
    )

-- The updates of the target are applied, and it is told whether there are any.
abbrev UpdatesApplied : Text → Bool → List FileUpdate → Text → Text × Bool → Type 0
UpdatesApplied target found us text (result, found') =
    Patched (target_chunks target us) text result
    × (found' ≡ (if found then true else names_any target us))

apply_updates-Applied :
    (target text : Text) (found : Bool) (us : List FileUpdate) {r : Text × Bool}
    → apply_updates target text found us ≡ ok r
    → UpdatesApplied target found us text r
unfolding apply_updates target_chunks names_any
apply_updates-Applied target text true [] h = ground arith
apply_updates-Applied target text false [] h = ground arith
apply_updates-Applied target text found (u ∷ us) {r} h =
    elim (Bool-cases (names_target target u.path)) [
      | inl e ↦
          let (next, p, q) = >>=-eq-ok (apply_chunks text (chunks_of u.section)) _ (rw e at h) in
          let k = apply_updates-Applied target next true us {r = r} q in
          rw e (
            Patched-append (chunks_of u.section) (target_chunks target us) text next r.0
                (apply_chunks-Patched text (chunks_of u.section) p) k.0,
            ground (arith, k.1),
          )
      | inr e ↦ rw e (apply_updates-Applied target text found us {r = r} (rw e at h))
    ]

-- An accepted patch updates the target, and its candidate is made from the present text by the
-- chunks of those updates in order: each replaces one occurrence of its context and removed lines
-- by its context and added lines.
pub candidate_from_apply_patch-Patched :
    (original patch target_path candidate : Text)
    → candidate_from_apply_patch original patch target_path ≡ ok candidate
    → (names_any (normalize_path target_path) (split_updates (bare_lines patch)).1 ≡ true)
      × Patched
          (target_chunks (normalize_path target_path) (split_updates (bare_lines patch)).1)
          original
          candidate
unfolding candidate_from_apply_patch
candidate_from_apply_patch-Patched original patch target_path candidate h =
    let updates = (split_updates (bare_lines patch)).1 in
    let (r, p, q) =
      >>=-eq-ok (apply_updates (normalize_path target_path) original false updates) _ h in
    let k = apply_updates-Applied (normalize_path target_path) original false updates {r = r} p in
    let c : (r.1 ≡ true) × (r.0 ≡ candidate) = (ground arith, ground arith) in
    (
      sym k.1 ∙ c.0,
      subst (Patched (target_chunks (normalize_path target_path) updates) original) c.1 k.0,
    )
