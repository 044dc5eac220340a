-- ===== src/TaskDocument/Scan.antt =====
-- The loop of `TaskDocument.parse` over the lines: fences, captured chat, headings.
use playbook_harness.Base.{
  ℕ, ◌+◌, Bool, true, false, not, ◌&&◌, Option, none, some, List, [], ◌∷◌, ◌==◌, if◌then◌else◌, leb,
}
use playbook_harness.Text.{Text, strip, text_eq}
use playbook_harness.TaskDocument.Grammar.{opaque_start, opaque_end, fence_match, heading_title}

-- The variables of the loop; `fence_char` and `fence_width` are one optional pair.
pub record State : Type 0 where
  pub fence : Option (ℕ × ℕ)
  pub opaque : Bool

-- What the loop records of one line: `semantic[index]`, and its title in `headings`.
pub record Mark : Type 0 where
  pub semantic : Bool
  pub heading : Option Text

abbrev pub initial : State
initial = record { fence = none; opaque = false }

-- A fence line opens a fence, closes one of its character that is no wider, or stands inside one.
unfoldable pub toggle : Option (ℕ × ℕ) → ℕ × ℕ → Option (ℕ × ℕ)
toggle none (c, width) = some (c, width)
toggle (some (open_char, open_width)) (c, width) =
    if c == open_char && leb open_width width then none else some (open_char, open_width)

abbrev hidden : Mark
hidden = record { semantic = false; heading = none }

-- A line outside captured chat that is no fence.
plain_line : Option (ℕ × ℕ) → Text → Mark
plain_line none line = record { semantic = true; heading = heading_title line }
plain_line (some f) line = hidden

fence_line : State → Text → Option (ℕ × ℕ) → State × Mark
fence_line s line none = (s, plain_line s.fence line)
fence_line s line (some m) = (record s { fence = toggle s.fence m }, hidden)

-- One round of the loop.
unfoldable pub scan_line : State → Text → State × Mark
unfolding fence_line plain_line
scan_line s line =
    if text_eq (strip line) opaque_start
    then (record s { opaque = true }, hidden)
    else if s.opaque
    then (record s { opaque = not (text_eq (strip line) opaque_end) }, hidden)
    else fence_line s line (fence_match line)

unfoldable pub scan : State → List Text → List Mark
scan s [] = []
scan s (l ∷ ls) = (scan_line s l).1 ∷ scan (scan_line s l).0 ls

-- The state behind the last line.
unfoldable pub scan_end : State → List Text → State
scan_end s [] = s
scan_end s (l ∷ ls) = scan_end (scan_line s l).0 ls

-- The list `headings`, from line `i` on.
unfoldable pub headings : ℕ → List Mark → List (ℕ × Text)
headings i [] = []
headings i (m ∷ ms) =
    let rest = headings (i + 1) ms in
    elim m.heading [ none ↦ rest | some title ↦ (i, title) ∷ rest ]
