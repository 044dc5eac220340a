-- ===== src/Text/Bare.antt =====
-- `str.splitlines()` without the line ends, `"\n".join` and the tests on parts of a text.
use playbook_harness.Base.{Bool, ◌&&◌, ◌||◌, List, [], ◌∷◌, ◌++◌, ◌==◌, if◌then◌else◌, is_empty}
use playbook_harness.Text.{Text, starts_with}
use playbook_harness.Text.Lines.{is_break, splitlines}

-- A line without the boundary that ends it.
unfoldable pub chop : Text → Text
unfolding is_break
chop [] = []
chop (c ∷ []) = if is_break c then [] else c ∷ []
chop (c ∷ d ∷ t) =
    let rest = c ∷ chop (d ∷ t) in if c == b'\r' && d == b'\n' && is_empty t then [] else rest

unfoldable pub chop_all : List Text → List Text
unfolding chop
chop_all [] = []
chop_all (l ∷ ls) = chop l ∷ chop_all ls

-- `text.splitlines()`
abbrev pub bare_lines : Text → List Text
bare_lines t = chop_all (splitlines t)

-- `"\n".join(lines)`
unfoldable pub join_lines : List Text → Text
join_lines [] = []
join_lines (l ∷ []) = l
join_lines (l ∷ m ∷ ls) = l ++ b'\n' ∷ join_lines (m ∷ ls)

-- `part in text`
unfoldable pub contains : Text → Text → Bool
unfolding starts_with
contains part [] = is_empty part
contains part (c ∷ t) = starts_with part (c ∷ t) || contains part t
