-- ===== src/Arena/Schema/Rubric.antt =====
-- `load_rubric`: the criteria of a rubric.
use playbook_harness.Base.{
  not, Option, none, some, List, [], ◌∷◌, if◌then◌else◌, Result, ok, err, ◌>>=◌,
}
use playbook_harness.Text.{Text, codes, text_eq, text_mem}
use playbook_harness.Json.{Json, array, object, Items, no_items, item, Members}
use playbook_harness.Arena.Schema.{
  SchemaError, duplicate_id, no_criteria, bad_kind, require, object_of, field, check_schema,
  text_of, text_max, identifier, hashed,
}

pub data CriterionKind : Type 0 where
  deterministic semantic : CriterionKind

pub record RubricCriterion : Type 0 where
  pub id : Text
  pub kind : CriterionKind
  pub text : Text

-- `RubricDefinition`, without its path and its hash.
pub record RubricDefinition : Type 0 where
  pub id : Text
  pub version : Text
  pub criteria : List RubricCriterion

abbrev pub kind_named : Option Text → Result SchemaError CriterionKind
kind_named none = err bad_kind
kind_named (some t) =
    if text_eq t (codes "deterministic")
    then ok deterministic
    else if text_eq t (codes "semantic")
    then ok semantic
    else err bad_kind

-- One turn of the loop, behind the ids seen so far.
unfoldable pub load_criterion : List Text → Json → Result SchemaError RubricCriterion
load_criterion seen j = do
  entry ← object_of (codes "id" ∷ codes "kind" ∷ codes "text" ∷ []) j
  id ← identifier (field (codes "id") entry)
  a ← require (not (text_mem id seen)) duplicate_id
  named ← hashed (field (codes "kind") entry)
  kind ← kind_named named
  text ← text_of text_max (field (codes "text") entry)
  ok (record { id = id; kind = kind; text = text })

unfoldable pub load_criteria : List Text → Items → Result SchemaError (List RubricCriterion)
load_criteria seen no_items = ok []
load_criteria seen (item j js) = do
  c ← load_criterion seen j
  cs ← load_criteria (c.id ∷ seen) js
  ok (c ∷ cs)

abbrev pub criterion_items : Json → Result SchemaError Items
criterion_items (array (item j js)) = ok (item j js)
criterion_items _ = err no_criteria

-- `load_rubric`, on the object of the file.
unfoldable pub load_rubric : Members → Result SchemaError RubricDefinition
load_rubric raw = do
  value ←
      object_of (codes "schema" ∷ codes "id" ∷ codes "version" ∷ codes "criteria" ∷ []) (object raw)
  a ← check_schema (field (codes "schema") value)
  items ← criterion_items (field (codes "criteria") value)
  criteria ← load_criteria [] items
  id ← identifier (field (codes "id") value)
  version ← identifier (field (codes "version") value)
  ok (record { id = id; version = version; criteria = criteria })
