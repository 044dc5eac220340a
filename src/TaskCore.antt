-- ===== src/TaskCore.antt =====
-- src/tasks/core.py: the name of a new task's directory, `_slugify` and `_next_task_number`. An entry of
-- the directory of tasks is its name, and whether it is a directory. The other functions are not modelled.
pub mod Slugs
pub mod Letters
pub mod Numbers
use playbook_harness.Base.{
  ℕ, ◌+◌, Bool, true, false, not, ◌&&◌, ◌||◌, Option, none, some, List, [], ◌∷◌, ◌==◌,
  if◌then◌else◌, ltb, is_empty,
}
use playbook_harness.Text.{Text, within, is_space, lower}
use playbook_harness.Detection.{is_digit, shift}

unfoldable pub is_dash : ℕ → Bool
is_dash c = c == b'-'

unfoldable pub is_gap : ℕ → Bool
is_gap c = is_space c || c == b'_'

unfoldable pub is_slug_char : ℕ → Bool
is_slug_char c = within b'a' b'z' c || within b'A' b'Z' c || is_digit c

-- `re.sub` of the runs of a class of characters by a dash; the flag says that one goes on.
unfoldable pub sub_runs : (ℕ → Bool) → Bool → Text → Text
sub_runs p in_run [] = []
sub_runs p in_run (c ∷ t) =
    let inside = sub_runs p true t in
    let outside = sub_runs p false t in
    if p c then if in_run then inside else b'-' ∷ inside else c ∷ outside

-- `re.sub(r'[^a-zA-Z0-9-]', '', slug)`
unfoldable pub keep_slug_chars : Text → Text
keep_slug_chars [] = []
keep_slug_chars (c ∷ t) =
    let rest = keep_slug_chars t in if is_slug_char c || is_dash c then c ∷ rest else rest

unfoldable pub lstrip_dashes : Text → Text
lstrip_dashes [] = []
lstrip_dashes (c ∷ t) = if is_dash c then lstrip_dashes t else c ∷ t

unfoldable pub rstrip_dashes : Text → Text
rstrip_dashes [] = []
rstrip_dashes (c ∷ t) =
    let rest = rstrip_dashes t in if is_dash c && is_empty rest then [] else c ∷ rest

unfoldable pub slugify : Text → Text
slugify name = lower (
    rstrip_dashes
      (lstrip_dashes (sub_runs is_dash false (keep_slug_chars (sub_runs is_gap false name)))))

-- An item of the directory of tasks.
pub record Item : Type 0 where
  pub name : Text
  pub is_dir : Bool

-- `re.match(r'^(\d+)-', name)`, with the number read; the flag says that a digit was read.
unfoldable pub number_from : Bool → ℕ → Text → Option ℕ
number_from some_digit value [] = none
number_from some_digit value (c ∷ t) =
    let more = number_from true (shift value c) t in
    if is_digit c then more else if some_digit && is_dash c then some value else none

unfoldable pub number_of : Text → Option ℕ
number_of name = number_from false 0 name

abbrev pub larger_number : ℕ → Option ℕ → ℕ
larger_number most none = most
larger_number most (some n) = if ltb most n then n else most

unfoldable pub max_number : ℕ → List Item → ℕ
max_number most [] = most
max_number most (i ∷ is) =
    max_number (if i.is_dir then larger_number most (number_of i.name) else most) is

-- The directory may be absent.
unfoldable pub next_task_number : Option (List Item) → ℕ
next_task_number none = 1
next_task_number (some items) = max_number 0 items + 1
