-- ===== src/Arena/Judge/Aggregate.antt =====
-- `aggregate_judgments`: what the judges that were scored say of each criterion.
use playbook_harness.Base.{
  ℕ, ◌+◌, ◌*◌, Bool, true, false, List, [], ◌∷◌, ◌++◌, ◌==◌, if◌then◌else◌, ltb, length,
}
use playbook_harness.Text.{Text, text_eq}
use playbook_harness.Arena.Schema.Rubric.{RubricCriterion}
use playbook_harness.Arena.Judge.{Disposition, pass, fail, uncertain, Claim}

-- `status` and `claims` of a judgment.
pub record Judgment : Type 0 where
  pub scored : Bool
  pub claims : List Claim

unfoldable pub claims_on : Text → List Claim → List Disposition
claims_on id [] = []
claims_on id (c ∷ cs) =
    let rest = claims_on id cs in if text_eq c.criterion_id id then c.disposition ∷ rest else rest

unfoldable pub dispositions : Text → List Judgment → List Disposition
dispositions id [] = []
dispositions id (j ∷ js) =
    let rest = dispositions id js in if j.scored then claims_on id j.claims ++ rest else rest

abbrev pub same_disposition : Disposition → Disposition → Bool
same_disposition pass pass = true
same_disposition fail fail = true
same_disposition uncertain uncertain = true
same_disposition _ _ = false

-- `Counter(dispositions)[d]`
unfoldable pub count_of : Disposition → List Disposition → ℕ
count_of d [] = 0
count_of d (e ∷ es) = (if same_disposition d e then 1 else 0) + count_of d es

abbrev pub at_least_one : ℕ → ℕ
at_least_one n = if n == 0 then 0 else 1

-- `len(counts)`
abbrev pub kinds : List Disposition → ℕ
kinds ds =
    at_least_one (count_of pass ds)
    + at_least_one (count_of fail ds)
    + at_least_one (count_of uncertain ds)

abbrev pub larger : ℕ → ℕ → ℕ
larger a b = if ltb a b then b else a

-- `counts.most_common()[0][1]`
abbrev pub most_common : List Disposition → ℕ
most_common ds = larger (count_of pass ds) (larger (count_of fail ds) (count_of uncertain ds))

pub data Agreement : Type 0 where
  unscorable unanimous majority disputed : Agreement

unfoldable pub agreement : List Disposition → Agreement
agreement [] = unscorable
agreement (d ∷ ds) =
    if kinds (d ∷ ds) == 1
    then unanimous
    else if ltb (length (d ∷ ds)) (2 * most_common (d ∷ ds))
    then majority
    else disputed

-- The counts are those of pass, fail and uncertain.
pub record Aggregate : Type 0 where
  pub criterion_id : Text
  pub status : Agreement
  pub counts : ℕ × ℕ × ℕ

abbrev pub aggregate_of : Text → List Disposition → Aggregate
aggregate_of id ds = record {
  criterion_id = id;
  status = agreement ds;
  counts = (count_of pass ds, count_of fail ds, count_of uncertain ds);
}

unfoldable pub aggregate_judgments : List RubricCriterion → List Judgment → List Aggregate
aggregate_judgments [] judgments = []
aggregate_judgments (c ∷ cs) judgments =
    aggregate_of c.id (dispositions c.id judgments) ∷ aggregate_judgments cs judgments
