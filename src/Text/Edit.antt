-- ===== src/Text/Edit.antt =====
-- `str.count` and `str.replace`, by occurrences that do not overlap, from the left.
use playbook_harness.Base.{
  ℕ, zero, suc, ◌+◌, ◌-◌, Bool, true, false, [], ◌∷◌, ◌++◌, if◌then◌else◌, is_empty, length, drop,
}
use playbook_harness.Text.{Text, starts_with}

abbrev skip_after : Bool → Text → ℕ
skip_after true old = length old - 1
skip_after false old = 0

-- `skip` characters belong to the occurrence that was counted last.
unfoldable pub count_from : ℕ → Text → Text → ℕ
unfolding starts_with
count_from skip old [] = 0
count_from (suc skip) old (c ∷ t) = count_from skip old t
count_from zero old (c ∷ t) =
    (if starts_with old (c ∷ t) then 1 else 0)
    + count_from (skip_after (starts_with old (c ∷ t)) old) old t

-- `text.count(old)`
unfoldable pub count : Text → Text → ℕ
unfolding count_from
count [] t = length t + 1
count (o ∷ old) t = count_from 0 (o ∷ old) t

-- `text.replace(old, new, 1)`
unfoldable pub replace_first : Text → Text → Text → Text
unfolding starts_with
replace_first old new [] = if is_empty old then new else []
replace_first old new (c ∷ t) =
    let rest = c ∷ replace_first old new t in
    if starts_with old (c ∷ t) then new ++ drop (length old) (c ∷ t) else rest

replace_from : ℕ → Text → Text → Text → Text
unfolding starts_with
replace_from skip old new [] = []
replace_from (suc skip) old new (c ∷ t) = replace_from skip old new t
replace_from zero old new (c ∷ t) =
    let hit = starts_with old (c ∷ t) in
    (if hit then new else c ∷ []) ++ replace_from (skip_after hit old) old new t

-- `text.replace(old, new)` of a text that is not empty.
unfoldable pub replace_all : Text → Text → Text → Text
unfolding replace_from
replace_all old new t = replace_from 0 old new t
