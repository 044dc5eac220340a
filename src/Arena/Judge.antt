-- ===== src/Arena/Judge.antt =====
-- arena/src/playbook_arena/judge.py: `_validate_output`, on the parsed answer of a judge, and
-- `aggregate_judgments`.
pub mod Aggregate
pub mod Agreement
pub mod Cited
pub mod Output
use playbook_harness.Base.{
  ℕ, Bool, true, false, not, ◌&&◌, ◌||◌, Option, none, some, List, [], ◌∷◌, ◌==◌, if◌then◌else◌,
  Result, ok, err, ◌>>=◌, is_empty,
}
use playbook_harness.Text.{Text, codes, text_eq, text_mem, is_blank_line}
use playbook_harness.Json.{
  Json, boolean, number, whole_float, string, array, object, Items, no_items, item, Members, get,
}
use playbook_harness.Arena.Schema.{
  SchemaError, bad_envelope, no_claims, bad_fields, unknown_criterion, bad_disposition,
  bad_rationale, bad_citations, duplicates, omitted_criteria, require, has_fields, has_null, field,
  hashed, all_in, distinct_texts,
}
use playbook_harness.Arena.Schema.Rubric.{CriterionKind, deterministic, semantic, RubricCriterion}

pub data Disposition : Type 0 where
  pass fail uncertain : Disposition

pub data Confidence : Type 0 where
  low medium high : Confidence

pub record Claim : Type 0 where
  pub criterion_id : Text
  pub disposition : Disposition
  pub confidence : Confidence
  pub rationale : Text
  pub citations : List Text

abbrev pub is_semantic : CriterionKind → Bool
is_semantic semantic = true
is_semantic deterministic = false

unfoldable pub semantic_ids : List RubricCriterion → List Text
semantic_ids [] = []
semantic_ids (c ∷ cs) =
    let rest = semantic_ids cs in if is_semantic c.kind then c.id ∷ rest else rest

unfoldable pub criterion_ids : List RubricCriterion → List Text
criterion_ids [] = []
criterion_ids (c ∷ cs) = c.id ∷ criterion_ids cs

-- The criteria that are judged: the semantic ones, or all where there is none.
abbrev pub expected_ids : List RubricCriterion → List Text
expected_ids cs = if is_empty (semantic_ids cs) then criterion_ids cs else semantic_ids cs

abbrev pub disposition_named : Option Text → Result SchemaError Disposition
disposition_named none = err bad_disposition
disposition_named (some t) =
    if text_eq t (codes "pass")
    then ok pass
    else if text_eq t (codes "fail")
    then ok fail
    else if text_eq t (codes "uncertain")
    then ok uncertain
    else err bad_disposition

abbrev pub confidence_named : Option Text → Result SchemaError Confidence
confidence_named none = err bad_disposition
confidence_named (some t) =
    if text_eq t (codes "low")
    then ok low
    else if text_eq t (codes "medium")
    then ok medium
    else if text_eq t (codes "high")
    then ok high
    else err bad_disposition

-- A criterion that is expected and was not seen.
abbrev pub criterion_of : List Text → List Text → Option Text → Result SchemaError Text
criterion_of expected seen none = err unknown_criterion
criterion_of expected seen (some t) =
    if text_mem t expected && not (text_mem t seen) then ok t else err unknown_criterion

abbrev pub rationale_of : Json → Result SchemaError Text
rationale_of (string t) = do
  a ← require (not (is_blank_line t) && not (has_null t)) bad_rationale
  ok t
rationale_of _ = err bad_rationale

abbrev pub citation_of : List Text → Json → Result SchemaError Text
citation_of allowed (string t) = do a ← require (text_mem t allowed) bad_citations; ok t
citation_of allowed _ = err bad_citations

unfoldable pub citations_of : List Text → Items → Result SchemaError (List Text)
citations_of allowed no_items = ok []
citations_of allowed (item j js) = do
  t ← citation_of allowed j
  ts ← citations_of allowed js
  ok (t ∷ ts)

abbrev pub cited : List Text → Json → Result SchemaError (List Text)
cited allowed (array (item j js)) = do
  ts ← citations_of allowed (item j js)
  a ← require (distinct_texts ts) duplicates
  ok ts
cited allowed _ = err bad_citations

abbrev pub claim_fields : List Text
claim_fields =
    codes "criterion_id"
    ∷ codes "disposition"
    ∷ codes "confidence"
    ∷ codes "rationale"
    ∷ codes "citations"
    ∷ []

abbrev pub claim_members : Json → Result SchemaError Members
claim_members (object ms) = do a ← require (has_fields claim_fields ms) bad_fields; ok ms
claim_members _ = err bad_fields

-- One turn of the loop, behind the criteria seen so far.
unfoldable pub claim_of : List Text → List Text → List Text → Json → Result SchemaError Claim
claim_of expected allowed seen j = do
  raw ← claim_members j
  named ← hashed (field (codes "criterion_id") raw)
  criterion ← criterion_of expected seen named
  d ← hashed (field (codes "disposition") raw)
  disposition ← disposition_named d
  c ← hashed (field (codes "confidence") raw)
  confidence ← confidence_named c
  rationale ← rationale_of (field (codes "rationale") raw)
  citations ← cited allowed (field (codes "citations") raw)
  ok (record {
    criterion_id = criterion;
    disposition = disposition;
    confidence = confidence;
    rationale = rationale;
    citations = citations;
  })

-- The claims, and the criteria that were seen.
unfoldable pub claims_of :
    List Text → List Text → List Text → Items → Result SchemaError (List Claim × List Text)
claims_of expected allowed seen no_items = ok ([], seen)
claims_of expected allowed seen (item j js) = do
  claim ← claim_of expected allowed seen j
  rest ← claims_of expected allowed (claim.criterion_id ∷ seen) js
  ok (claim ∷ rest.0, rest.1)

-- `value["schema"] == 1`, which holds of `True` too.
abbrev pub is_one : Json → Bool
is_one (number n) = n == 1
is_one (whole_float n) = n == 1
is_one (boolean b) = b
is_one _ = false

abbrev pub is_judge : Json → Text → Bool
is_judge (string t) id = text_eq t id
is_judge _ id = false

abbrev pub envelope : Text → Json → Result SchemaError Members
envelope judge_id (object ms) = do
  a ←
      require
        (has_fields (codes "schema" ∷ codes "judge_id" ∷ codes "claims" ∷ []) ms
          && is_one (field (codes "schema") ms)
          && is_judge (field (codes "judge_id") ms) judge_id)
        bad_envelope
  ok ms
envelope judge_id _ = err bad_envelope

abbrev pub claim_items : Json → Result SchemaError Items
claim_items (array (item j js)) = ok (item j js)
claim_items _ = err no_claims

-- `_validate_output`
unfoldable pub validate_output :
    Text → List RubricCriterion → List Text → Json → Result SchemaError (List Claim)
validate_output judge_id criteria allowed value = do
  ms ← envelope judge_id value
  items ← claim_items (field (codes "claims") ms)
  found ← claims_of (expected_ids criteria) allowed [] items
  a ← require (all_in (expected_ids criteria) found.1) omitted_criteria
  ok found.0
