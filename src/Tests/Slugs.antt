-- ===== src/Tests/Slugs.antt =====
-- Names and numbers of new tasks, and instances of the theorems on them.
use playbook_harness.Base.{◌-◌, ◌≡◌, ◌⊎◌, ◌<◌, refl, true, false, some, List, [], ◌∷◌}
use playbook_harness.Text.{is_space, Text, codes, lower}
use playbook_harness.TaskCore.{
  is_slug_char, number_from, number_of, max_number, rstrip_dashes, lstrip_dashes, keep_slug_chars,
  sub_runs, is_gap, is_dash, Item, slugify, next_task_number,
}
use playbook_harness.TaskCore.Slugs.{is_slug}
use playbook_harness.TaskCore.Letters.{letters, slugify-letters}
use playbook_harness.TaskCore.Numbers.{taken, next_task_number-fresh}

abbrev title : Text
title = codes " Fix the_2nd -- parser (again)! "

slug-test : slugify title ≡ codes "fix-the-2nd-parser-again"
unfolding slugify lower is_space is_dash is_gap is_slug_char sub_runs keep_slug_chars lstrip_dashes
    rstrip_dashes
slug-test = refl

abbrev items : List Item
items =
    record { name = codes "007-parse"; is_dir = true }
    ∷ record { name = codes "012-notes"; is_dir = false }
    ∷ record { name = codes "x9-draft"; is_dir = true }
    ∷ []

number-test : next_task_number (some items) ≡ 8
unfolding next_task_number max_number number_of number_from is_dash
number-test = refl

seven-taken : taken 7 items ≡ true
unfolding taken number_of number_from is_dash
seven-taken = refl

slugify-letters_example :
    (is_slug (slugify title) ≡ true) × (letters (slugify title) ≡ lower (letters title))
slugify-letters_example = slugify-letters title

next_task_number-fresh_example :
    (7 < next_task_number (some items))
    × ((next_task_number (some items) ≡ 1)
        ⊎ (taken (next_task_number (some items) - 1) items ≡ true))
next_task_number-fresh_example = next_task_number-fresh items 7 seven-taken
