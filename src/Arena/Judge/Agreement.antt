-- ===== src/Arena/Judge/Agreement.antt =====
-- What the status of a criterion means.
use playbook_harness.Base.{
  ℕ, Bool, if◌then◌else◌, ◌≢◌, ◌++◌, ◌+◌, ◌*◌, ◌≡◌, ◌≤◌, ◌<◌, refl, inl, inr, ◌⊎◌, true, false,
  List, [], ◌∷◌, arith, length, ltb, ◌==◌, Bool-cases,
}
use playbook_harness.Text.{Text, text_eq, text_eq_iff}
use playbook_harness.Arena.Schema.Rubric.{RubricCriterion}
use playbook_harness.Arena.Judge.{Disposition, pass, fail, uncertain, Claim}
use playbook_harness.Arena.Judge.Aggregate.{
  Judgment, Agreement, unscorable, unanimous, majority, disputed, Aggregate, count_of, kinds,
  most_common, larger, at_least_one, agreement, claims_on, dispositions, aggregate_of,
  aggregate_judgments,
}

-- What a list of claims says of a criterion.
pub data Said (id : Text) : List Claim → List Disposition → Type 0 where
  nothing : Said id [] []
  on_it :
      {cs : List Claim} {ds : List Disposition} (c : Claim)
      → c.criterion_id ≡ id
      → Said id cs ds
      → Said id (c ∷ cs) (c.disposition ∷ ds)
  on_another :
      {cs : List Claim} {ds : List Disposition} (c : Claim)
      → c.criterion_id ≢ id
      → Said id cs ds
      → Said id (c ∷ cs) ds

-- What the judges that were scored say of a criterion.
pub data Heard (id : Text) : List Judgment → List Disposition → Type 0 where
  no_judge : Heard id [] []
  scored_judge :
      {js : List Judgment} {ds es : List Disposition} (j : Judgment)
      → j.scored ≡ true
      → Said id j.claims ds
      → Heard id js es
      → Heard id (j ∷ js) (ds ++ es)
  unscored_judge :
      {js : List Judgment} {ds : List Disposition} (j : Judgment)
      → j.scored ≡ false
      → Heard id js ds
      → Heard id (j ∷ js) ds

-- How many pass, fail, and are uncertain.
pub data Tally : List Disposition → ℕ → ℕ → ℕ → Type 0 where
  none_said : Tally [] 0 0 0
  one_pass : {ds : List Disposition} {p f u : ℕ} → Tally ds p f u → Tally (pass ∷ ds) (1 + p) f u
  one_fail : {ds : List Disposition} {p f u : ℕ} → Tally ds p f u → Tally (fail ∷ ds) p (1 + f) u
  one_uncertain :
      {ds : List Disposition} {p f u : ℕ} → Tally ds p f u → Tally (uncertain ∷ ds) p f (1 + u)

-- By the three counts and their sum: nobody; all say one thing; more than half do, and not all;
-- nobody has more than half.
abbrev pub AgreementOf : Agreement → ℕ → ℕ → ℕ → ℕ → Type 0
AgreementOf unscorable n p f u = n ≡ 0
AgreementOf unanimous n p f u = (1 ≤ n) × ((p ≡ n) ⊎ (f ≡ n) ⊎ (u ≡ n))
AgreementOf majority n p f u =
    (p < n) × (f < n) × (u < n) × ((n < 2 * p) ⊎ (n < 2 * f) ⊎ (n < 2 * u))
AgreementOf disputed n p f u = (1 ≤ n) × (2 * p ≤ n) × (2 * f ≤ n) × (2 * u ≤ n)

-- What is said of one criterion, with its counts and its status.
pub record IsAggregate (c : RubricCriterion) (js : List Judgment) (a : Aggregate) : Type 0 where
  pub named : a.criterion_id ≡ c.id
  pub said : List Disposition
  pub heard : Heard c.id js said
  pub tally : Tally said a.counts.0 a.counts.1 a.counts.2
  pub agreed :
      AgreementOf a.status (a.counts.0 + a.counts.1 + a.counts.2) a.counts.0 a.counts.1 a.counts.2

claims_on-Said : (id : Text) (cs : List Claim) → Said id cs (claims_on id cs)
unfolding claims_on
claims_on-Said id [] = nothing
claims_on-Said id (c ∷ cs) = elim (Bool-cases (text_eq c.criterion_id id)) [
  | inl e ↦ rw e (on_it c ((text_eq_iff c.criterion_id id).0 e) (claims_on-Said id cs))
  | inr e ↦ rw e (
      on_another c (λ q. absurd (ground (arith, (text_eq_iff c.criterion_id id).1 q)))
        (claims_on-Said id cs))
]

scored-Heard :
    (id : Text) (j : Judgment) (js : List Judgment) (ds : List Disposition) (scored : Bool)
    → j.scored ≡ scored
    → Heard id js ds
    → Heard id (j ∷ js) (if scored then claims_on id j.claims ++ ds else ds)
scored-Heard id j js ds true e h = scored_judge j e (claims_on-Said id j.claims) h
scored-Heard id j js ds false e h = unscored_judge j e h

dispositions-Heard : (id : Text) (js : List Judgment) → Heard id js (dispositions id js)
unfolding dispositions
dispositions-Heard id [] = no_judge
dispositions-Heard id (j ∷ js) =
    scored-Heard id j js (dispositions id js) j.scored refl (dispositions-Heard id js)

zero_add : (n : ℕ) → 0 + n ≡ n
zero_add n = omega arith

count_of-Tally :
    (ds : List Disposition) → Tally ds (count_of pass ds) (count_of fail ds) (count_of uncertain ds)
unfolding count_of
count_of-Tally [] = none_said
count_of-Tally (pass ∷ ds) =
    rw (zero_add (count_of fail ds), zero_add (count_of uncertain ds))
      (one_pass (count_of-Tally ds))
count_of-Tally (fail ∷ ds) =
    rw (zero_add (count_of pass ds), zero_add (count_of uncertain ds))
      (one_fail (count_of-Tally ds))
count_of-Tally (uncertain ∷ ds) =
    rw (zero_add (count_of pass ds), zero_add (count_of fail ds))
      (one_uncertain (count_of-Tally ds))

counts-length :
    (ds : List Disposition)
    → count_of pass ds + count_of fail ds + count_of uncertain ds ≡ length ds
unfolding count_of
counts-length [] = omega arith
counts-length (pass ∷ ds) = omega (arith, counts-length ds)
counts-length (fail ∷ ds) = omega (arith, counts-length ds)
counts-length (uncertain ∷ ds) = omega (arith, counts-length ds)

-- The counts of a list that is not empty, by the number of kinds.
one_kind :
    (p f u n : ℕ)
    → p + f + u ≡ n
    → (at_least_one p + at_least_one f + at_least_one u == 1) ≡ true
    → (p ≡ n) ⊎ (f ≡ n) ⊎ (u ≡ n)
one_kind p f u n s h = ground arith

more_kinds :
    (p f u n : ℕ)
    → p + f + u ≡ n
    → 1 ≤ n
    → (at_least_one p + at_least_one f + at_least_one u == 1) ≡ false
    → (p < n) × (f < n) × (u < n)
more_kinds p f u n s l h = ground arith

above_half :
    (p f u n : ℕ)
    → ltb n (2 * larger p (larger f u)) ≡ true
    → (n < 2 * p) ⊎ (n < 2 * f) ⊎ (n < 2 * u)
above_half p f u n h = ground arith

below_half :
    (p f u n : ℕ)
    → ltb n (2 * larger p (larger f u)) ≡ false
    → (2 * p ≤ n) × (2 * f ≤ n) × (2 * u ≤ n)
below_half p f u n h = ground arith

agreement-AgreementOf :
    (ds : List Disposition)
    → AgreementOf
        (agreement ds)
        (length ds)
        (count_of pass ds)
        (count_of fail ds)
        (count_of uncertain ds)
unfolding agreement count_of
agreement-AgreementOf [] = refl
agreement-AgreementOf (d ∷ ds) =
    let all' = d ∷ ds in
    let s = counts-length all' in
    let p = count_of pass all' in
    let f = count_of fail all' in
    let u = count_of uncertain all' in
    elim (Bool-cases (kinds all' == 1)) [
      | inl e ↦ rw e (omega arith, one_kind p f u (length all') s e)
      | inr e ↦
          let k = more_kinds p f u (length all') s (omega arith) e in
          elim (Bool-cases (ltb (length all') (2 * most_common all'))) [
            | inl m ↦ rw (e, m) (k.0, k.1, k.2, above_half p f u (length all') m)
            | inr m ↦
                let b = below_half p f u (length all') m in rw (e, m) (omega arith, b.0, b.1, b.2)
          ]
    ]

aggregate_of-IsAggregate :
    (c : RubricCriterion) (js : List Judgment)
    → IsAggregate c js (aggregate_of c.id (dispositions c.id js))
aggregate_of-IsAggregate c js =
    let ds = dispositions c.id js in
    record {
      named = refl;
      said = ds;
      heard = dispositions-Heard c.id js;
      tally = count_of-Tally ds;
      agreed = rw (counts-length ds) (agreement-AgreementOf ds);
    }

abbrev pub Agreed : List RubricCriterion → List Judgment → List Aggregate → Type 0
Agreed [] js [] = Unit
Agreed (c ∷ cs) js (a ∷ as') = IsAggregate c js a × Agreed cs js as'
Agreed [] js (a ∷ as') = ⊥
Agreed (c ∷ cs) js [] = ⊥

-- Each criterion of the rubric gets one entry in its place, with the counts of those who pass it,
-- fail it and are uncertain among all claims on it of the judges that were scored, and one status:
-- unscorable when there are none, unanimous when all say the same, majority when more than half of
-- them do and not all, disputed when none has more than half.
pub aggregate_judgments-Agreed :
    (cs : List RubricCriterion) (js : List Judgment) → Agreed cs js (aggregate_judgments cs js)
unfolding aggregate_judgments
aggregate_judgments-Agreed [] js = tt
aggregate_judgments-Agreed (c ∷ cs) js =
    (aggregate_of-IsAggregate c js, aggregate_judgments-Agreed cs js)
