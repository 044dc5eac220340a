-- ===== src/Arena/Judge/Cited.antt =====
-- What an accepted claim cites.
use playbook_harness.Base.{
  ◌≡◌, refl, subst, Bool, true, false, List, [], ◌∷◌, arith, ok, >>=-eq-ok, ok-eq, All, is_empty,
}
use playbook_harness.Text.{Text, text_mem}
use playbook_harness.Json.{Json, string, array, Items, no_items, item, object}
use playbook_harness.Arena.Schema.{SchemaError, duplicates, require, distinct_texts}
use playbook_harness.Arena.Schema.Rubric.{}
use playbook_harness.Arena.Judge.{Claim, citation_of, citations_of, cited}

abbrev pub ids : List Claim → List Text
ids [] = []
ids (c ∷ cs) = c.criterion_id ∷ ids cs

-- A claim cites something, nothing twice, and only what was shown.
pub record IsCited (allowed : List Text) (c : Claim) : Type 0 where
  pub shown : All (λ t. text_mem t allowed ≡ true) c.citations
  pub different : distinct_texts c.citations ≡ true
  pub some_cited : is_empty c.citations ≡ false

pub require-true : (b : Bool) (e : SchemaError) {u : Unit {0}} → require b e ≡ ok u → b ≡ true
require-true true e h = refl
require-true false e h = cc

citation_of-shown :
    (allowed : List Text) (j : Json) {t : Text}
    → citation_of allowed j ≡ ok t
    → text_mem t allowed ≡ true
citation_of-shown allowed j h = ground arith

citations_of-shown :
    (allowed : List Text) (js : Items) {ts : List Text}
    → citations_of allowed js ≡ ok ts
    → All (λ t. text_mem t allowed ≡ true) ts
unfolding citations_of
citations_of-shown allowed no_items {ts} h =
    subst (All (λ t. text_mem t allowed ≡ true)) (ok-eq _ refl h) tt
citations_of-shown allowed (item j js) {ts} h =
    let (t, p, h1) = >>=-eq-ok (citation_of allowed j) _ h in
    let (rest, q, h2) = >>=-eq-ok (citations_of allowed js) _ h1 in
    subst (All (λ t. text_mem t allowed ≡ true)) (ok-eq _ refl h2)
      (citation_of-shown allowed j p, citations_of-shown allowed js {ts = rest} q)

citations_of-nonempty :
    (allowed : List Text) (j : Json) (js : Items) {ts : List Text}
    → citations_of allowed (item j js) ≡ ok ts
    → is_empty ts ≡ false
unfolding citations_of
citations_of-nonempty allowed j js {ts} h =
    let (t, p, h1) = >>=-eq-ok (citation_of allowed j) _ h in
    let (rest, q, h2) = >>=-eq-ok (citations_of allowed js) _ h1 in
    subst (λ x. is_empty x ≡ false) (ok-eq _ refl h2) refl

abbrev pub Cites : List Text → List Text → Type 0
Cites allowed ts =
    All (λ t. text_mem t allowed ≡ true) ts × (distinct_texts ts ≡ true) × (is_empty ts ≡ false)

pub cited-Cites :
    (allowed : List Text) (j : Json) {ts : List Text} → cited allowed j ≡ ok ts → Cites allowed ts
cited-Cites allowed (array (item j js)) {ts} h =
    let (xs, p, h1) = >>=-eq-ok (citations_of allowed (item j js)) _ h in
    let (u, q, h2) = >>=-eq-ok (require (distinct_texts xs) duplicates) _ h1 in
    subst (Cites allowed) (ok-eq _ refl h2) (
      citations_of-shown allowed (item j js) {ts = xs} p,
      require-true (distinct_texts xs) duplicates q,
      citations_of-nonempty allowed j js {ts = xs} p,
    )
cited-Cites allowed (array no_items) h = cc
cited-Cites allowed Json.null h = cc
cited-Cites allowed (Json.boolean b) h = cc
cited-Cites allowed (Json.number n) h = cc
cited-Cites allowed (Json.whole_float n) h = cc
cited-Cites allowed (Json.other_number z) h = cc
cited-Cites allowed (string t) h = cc
cited-Cites allowed (object ms) h = cc
