-- ===== src/Json.antt =====
-- The values of `json.loads`, as the program takes them apart.
use playbook_harness.Base.{
  ℕ, Bool, true, false, not, Option, none, some, ◌==◌, if◌then◌else◌, is_empty,
}
use playbook_harness.Text.{Text, text_eq}

-- A float that is a natural number is `whole_float`; of a number that is negative or a fraction only
-- whether it is zero is kept.
mutual
  pub data Json : Type 0 where
    null : Json
    boolean : Bool → Json
    number : ℕ → Json
    whole_float : ℕ → Json
    other_number : Bool → Json
    string : Text → Json
    array : Items → Json
    object : Members → Json

  pub data Items : Type 0 where
    no_items : Items
    item : Json → Items → Items

  pub data Members : Type 0 where
    no_members : Members
    member : Text → Json → Members → Members

-- `dict.get`
unfoldable pub get : Text → Members → Option Json
get key no_members = none
get key (member name value rest) =
    let later = get key rest in if text_eq name key then some value else later

abbrev pub has_items : Items → Bool
has_items no_items = false
has_items (item x xs) = true

abbrev pub has_members : Members → Bool
has_members no_members = false
has_members (member name value rest) = true

-- `bool(value)`
abbrev pub truthy : Json → Bool
truthy null = false
truthy (boolean b) = b
truthy (number n) = not (n == 0)
truthy (whole_float n) = not (n == 0)
truthy (other_number zero) = not zero
truthy (string t) = not (is_empty t)
truthy (array xs) = has_items xs
truthy (object ms) = has_members ms

-- `isinstance(value, str)`, of a member that may be missing.
abbrev pub as_text : Option Json → Option Text
as_text (some (string t)) = some t
as_text _ = none
