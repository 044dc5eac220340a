-- ===== src/Arena/Schema.antt =====
-- arena/src/playbook_arena/schema.py: the checks of JSON values, `load_script` and `load_rubric` on
-- the object that a file holds. Whether `re` compiles a pattern is a parameter.
pub mod Script
pub mod Rubric
pub mod Loaded
use playbook_harness.Base.{
  ℕ, ◌+◌, Bool, true, false, not, ◌&&◌, ◌||◌, Option, none, some, List, [], ◌∷◌, ◌==◌,
  if◌then◌else◌, Result, ok, err, ◌>>=◌, leb, ltb, length,
}
use playbook_harness.Text.{Text, codes, text_eq, text_mem, is_blank_line, within}
use playbook_harness.Identity.{is_alnum, all_id_chars}
use playbook_harness.Json.{
  Json, null, boolean, number, other_number, string, array, object, Items, no_items, item, Members,
  no_members, member, get,
}

-- `ArenaCaseError`, by what is wrong, and what Python raises for a text that has no encoding and
-- for a list or an object that is looked for in a set.
pub data SchemaError : Type 0 where
  not_object bad_fields bad_schema bad_text bad_identifier bad_integer bad_list duplicates :
      SchemaError
  duplicate_id bad_trigger bad_first bad_follower bad_pattern bad_adaptations bad_timeout_action :
      SchemaError
  no_events no_criteria bad_kind : SchemaError
  bad_envelope no_claims unknown_criterion bad_disposition bad_rationale bad_citations
        omitted_criteria :
      SchemaError
  unencodable unhashable : SchemaError

abbrev pub require : Bool → SchemaError → Result SchemaError (Unit {0})
require true e = ok tt
require false e = err e

-- The keys of an object.
unfoldable pub keys : Members → List Text
keys no_members = []
keys (member name value rest) = name ∷ keys rest

unfoldable pub all_in : List Text → List Text → Bool
all_in [] ys = true
all_in (x ∷ xs) ys = text_mem x ys && all_in xs ys

-- `set(value) == fields`
abbrev pub has_fields : List Text → Members → Bool
has_fields fields value = all_in fields (keys value) && all_in (keys value) fields

-- `_object`
abbrev pub object_of : List Text → Json → Result SchemaError Members
object_of fields (object ms) = do a ← require (has_fields fields ms) bad_fields; ok ms
object_of fields _ = err not_object

abbrev pub or_null : Option Json → Json
or_null none = null
or_null (some j) = j

-- `value[key]`, of a member that is there.
abbrev pub field : Text → Members → Json
field name ms = or_null (get name ms)

-- `_schema`
abbrev pub check_schema : Json → Result SchemaError (Unit {0})
check_schema (number n) = require (n == 1) bad_schema
check_schema _ = err bad_schema

-- The bytes of a character in UTF-8.
abbrev pub width : ℕ → ℕ
width c = if ltb c 0x80 then 1 else if ltb c 0x800 then 2 else if ltb c 0x10000 then 3 else 4

unfoldable pub utf8_length : Text → ℕ
utf8_length [] = 0
utf8_length (c ∷ t) = width c + utf8_length t

unfoldable pub is_encodable : Text → Bool
is_encodable [] = true
is_encodable (c ∷ t) = not (within 0xd800 0xdfff c) && is_encodable t

unfoldable pub has_null : Text → Bool
has_null [] = false
has_null (c ∷ t) = c == 0 || has_null t

-- `_text`
unfoldable pub bounded_text : ℕ → Text → Result SchemaError Text
bounded_text limit t = do
  a ← require (not (is_blank_line t || has_null t)) bad_text
  b ← require (is_encodable t) unencodable
  c ← require (leb (utf8_length t) limit) bad_text
  ok t

abbrev pub text_of : ℕ → Json → Result SchemaError Text
text_of limit (string t) = bounded_text limit t
text_of limit _ = err bad_text

-- `TEXT_MAX`
abbrev pub text_max : ℕ
text_max = 65536

-- `IDENTIFIER_RE.fullmatch`
unfoldable pub is_identifier : Text → Bool
is_identifier [] = false
is_identifier (c ∷ t) = is_alnum c && all_id_chars t && leb (length t) 63

abbrev pub identifier_text : Text → Result SchemaError Text
identifier_text t = do a ← require (is_identifier t) bad_identifier; ok t

-- `_identifier`
abbrev pub identifier : Json → Result SchemaError Text
identifier j = do t ← text_of 64 j; identifier_text t

-- `_integer`
abbrev pub integer : ℕ → ℕ → Json → Result SchemaError ℕ
integer minimum maximum (number n) = do
  a ← require (leb minimum n && leb n maximum) bad_integer
  ok n
integer minimum maximum _ = err bad_integer

unfoldable pub texts_of : Items → Result SchemaError (List Text)
texts_of no_items = ok []
texts_of (item j js) = do t ← text_of text_max j; ts ← texts_of js; ok (t ∷ ts)

-- `len(result) == len(set(result))`
unfoldable pub distinct_texts : List Text → Bool
distinct_texts [] = true
distinct_texts (t ∷ ts) = not (text_mem t ts) && distinct_texts ts

-- `_strings` of texts.
abbrev pub strings : Json → Result SchemaError (List Text)
strings (array js) = do ts ← texts_of js; a ← require (distinct_texts ts) duplicates; ok ts
strings _ = err bad_list

-- A value that is looked for in a set of strings: the string, or nothing that is in one.
abbrev pub hashed : Json → Result SchemaError (Option Text)
hashed (string t) = ok (some t)
hashed (array js) = err unhashable
hashed (object ms) = err unhashable
hashed _ = ok none
