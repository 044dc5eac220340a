-- ===== src/Arena/Judge/Output.antt =====
-- What an accepted answer of a judge holds.
use playbook_harness.Base.{
  ◌≡◌, refl, subst, ◌⊎◌, inr, true, false, List, [], ◌∷◌, arith, ok, >>=-eq-ok, ok-eq, All, Option,
}
use playbook_harness.Text.{Text, codes, text_mem, text_eq_iff}
use playbook_harness.Json.{Json, Items, no_items, item}
use playbook_harness.Arena.Schema.{omitted_criteria, require, field, hashed, all_in, distinct_texts}
use playbook_harness.Arena.Schema.Rubric.{RubricCriterion}
use playbook_harness.Arena.Judge.{
  Claim, expected_ids, criterion_of, disposition_named, confidence_named, rationale_of, cited,
  claim_members, claim_of, claims_of, envelope, claim_items, validate_output,
}
use playbook_harness.Arena.Judge.Cited.{ids, IsCited, require-true, cited-Cites}

-- What one claim was checked for.
pub record IsClaim (expected allowed seen : List Text) (c : Claim) : Type 0 where
  pub known : text_mem c.criterion_id expected ≡ true
  pub unseen : text_mem c.criterion_id seen ≡ false
  pub cites : IsCited allowed c

criterion_of-known :
    (expected seen : List Text) (o : Option Text) {t : Text}
    → criterion_of expected seen o ≡ ok t
    → (text_mem t expected ≡ true) × (text_mem t seen ≡ false)
criterion_of-known expected seen o h = (ground arith, ground arith)

claim_of-IsClaim :
    (expected allowed seen : List Text) (j : Json) {c : Claim}
    → claim_of expected allowed seen j ≡ ok c
    → IsClaim expected allowed seen c
unfolding claim_of
claim_of-IsClaim expected allowed seen j {c} h =
    let (raw, p1, h1) = >>=-eq-ok (claim_members j) _ h in
    let (named, p2, h2) = >>=-eq-ok (hashed (field (codes "criterion_id") raw)) _ h1 in
    let (criterion, p3, h3) = >>=-eq-ok (criterion_of expected seen named) _ h2 in
    let (d, p4, h4) = >>=-eq-ok (hashed (field (codes "disposition") raw)) _ h3 in
    let (disposition, p5, h5) = >>=-eq-ok (disposition_named d) _ h4 in
    let (f, p6, h6) = >>=-eq-ok (hashed (field (codes "confidence") raw)) _ h5 in
    let (confidence, p7, h7) = >>=-eq-ok (confidence_named f) _ h6 in
    let (rationale, p8, h8) = >>=-eq-ok (rationale_of (field (codes "rationale") raw)) _ h7 in
    let (citations, p9, h9) = >>=-eq-ok (cited allowed (field (codes "citations") raw)) _ h8 in
    let k = criterion_of-known expected seen named p3 in
    let x = cited-Cites allowed (field (codes "citations") raw) {ts = citations} p9 in
    subst (IsClaim expected allowed seen) (ok-eq _ refl h9) (record {
      known = k.0;
      unseen = k.1;
      cites = record { shown = x.0; different = x.1; some_cited = x.2 };
    })

-- The claims behind those that were seen, and what was seen in the end.
pub record AreClaims (expected allowed seen : List Text) (found : List Claim × List Text)
    : Type 0 where
  pub known : All (λ t. text_mem t expected ≡ true) (ids found.0)
  pub different : distinct_texts (ids found.0) ≡ true
  pub unseen : All (λ t. text_mem t seen ≡ false) (ids found.0)
  pub cites : All (IsCited allowed) found.0
  pub covered :
      (t : Text)
      → text_mem t found.1 ≡ true
      → (text_mem t (ids found.0) ≡ true) ⊎ (text_mem t seen ≡ true)

unseen-fresh :
    (id : Text) (seen ts : List Text)
    → All (λ t. text_mem t (id ∷ seen) ≡ false) ts
    → (text_mem id ts ≡ false) × All (λ t. text_mem t seen ≡ false) ts
unfolding text_mem
unseen-fresh id seen [] a = (refl, tt)
unseen-fresh id seen (t ∷ ts) a =
    let r = unseen-fresh id seen ts a.1 in
    (ground (arith, r.0, a.0, text_eq_iff id t, text_eq_iff t id), (ground (arith, a.0), r.1))

covered-cons :
    (t id : Text) (seen claimed : List Text)
    → (text_mem t claimed ≡ true) ⊎ (text_mem t (id ∷ seen) ≡ true)
    → (text_mem t (id ∷ claimed) ≡ true) ⊎ (text_mem t seen ≡ true)
unfolding text_mem
covered-cons t id seen claimed h = ground (arith, h)

claims_of-AreClaims :
    (expected allowed seen : List Text) (js : Items) {found : List Claim × List Text}
    → claims_of expected allowed seen js ≡ ok found
    → AreClaims expected allowed seen found
unfolding claims_of distinct_texts
claims_of-AreClaims expected allowed seen no_items {found} h =
    subst (AreClaims expected allowed seen) (ok-eq _ refl h)
      (record { known = tt; different = refl; unseen = tt; cites = tt; covered = λ t m. inr m })
claims_of-AreClaims expected allowed seen (item j js) {found} h =
    let (c, p, h1) = >>=-eq-ok (claim_of expected allowed seen j) _ h in
    let (rest, q, h2) = >>=-eq-ok (claims_of expected allowed (c.criterion_id ∷ seen) js) _ h1 in
    let k = claim_of-IsClaim expected allowed seen j {c = c} p in
    let r = claims_of-AreClaims expected allowed (c.criterion_id ∷ seen) js {found = rest} q in
    let u = unseen-fresh c.criterion_id seen (ids rest.0) r.unseen in
    subst (AreClaims expected allowed seen) (ok-eq _ refl h2) (record {
      known = (k.known, r.known);
      different = rw u.0 r.different;
      unseen = (k.unseen, u.1);
      cites = (k.cites, r.cites);
      covered = λ t m. covered-cons t c.criterion_id seen (ids rest.0) (r.covered t m);
    })

-- An accepted answer: exactly one claim on each criterion that is judged.
pub record IsOutput (criteria : List RubricCriterion) (allowed : List Text) (claims : List Claim)
    : Type 0 where
  pub known : All (λ t. text_mem t (expected_ids criteria) ≡ true) (ids claims)
  pub different : distinct_texts (ids claims) ≡ true
  pub complete : All (λ t. text_mem t (ids claims) ≡ true) (expected_ids criteria)
  pub cites : All (IsCited allowed) claims

all_in-covered :
    (xs seen claimed : List Text)
    → all_in xs seen ≡ true
    → ((t : Text) → text_mem t seen ≡ true → (text_mem t claimed ≡ true) ⊎ (text_mem t [] ≡ true))
    → All (λ t. text_mem t claimed ≡ true) xs
unfolding all_in text_mem
all_in-covered [] seen claimed h c = tt
all_in-covered (x ∷ xs) seen claimed h c =
    (ground (arith, c x), all_in-covered xs seen claimed (ground arith) c)

-- An answer that is accepted has exactly one claim on each semantic criterion of the rubric, or on each
-- criterion where none is semantic, and every claim cites something, nothing twice, and only
-- artifacts that the judge was shown.
pub validate_output-IsOutput :
    (judge_id : Text) (criteria : List RubricCriterion) (allowed : List Text) (value : Json)
    (claims : List Claim)
    → validate_output judge_id criteria allowed value ≡ ok claims
    → IsOutput criteria allowed claims
unfolding validate_output
validate_output-IsOutput judge_id criteria allowed value claims h =
    let (ms, p1, h1) = >>=-eq-ok (envelope judge_id value) _ h in
    let (items, p2, h2) = >>=-eq-ok (claim_items (field (codes "claims") ms)) _ h1 in
    let (found, p3, h3) = >>=-eq-ok (claims_of (expected_ids criteria) allowed [] items) _ h2 in
    let (u, p4, h4) =
      >>=-eq-ok (require (all_in (expected_ids criteria) found.1) omitted_criteria) _ h3 in
    let a = claims_of-AreClaims (expected_ids criteria) allowed [] items {found = found} p3 in
    subst (IsOutput criteria allowed) (ok-eq _ refl h4) (record {
      known = a.known;
      different = a.different;
      complete =
          all_in-covered (expected_ids criteria) found.1 (ids found.0)
            (require-true _ omitted_criteria p4) a.covered;
      cites = a.cites;
    })
