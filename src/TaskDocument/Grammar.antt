-- ===== src/TaskDocument/Grammar.antt =====
-- The patterns of task_document.py, each on one line of `splitlines(keepends=True)`, so on a text
-- that holds no newline but its last character.
use playbook_harness.Base.{
  ℕ, zero, suc, Bool, true, false, not, ◌&&◌, ◌||◌, Option, none, some, [], ◌∷◌, ◌==◌,
  if◌then◌else◌, is_empty, and_then, leb,
}
use playbook_harness.Text.{
  Text, codes, strip, after_prefix, is_space, text_eq, ends_with, starts_with,
}
use playbook_harness.Identity.{is_alnum}

abbrev pub opaque_start : Text
opaque_start = codes "<!-- playbook-recent-chat:start -->"

abbrev pub opaque_end : Text
opaque_end = codes "<!-- playbook-recent-chat:end -->"

abbrev pub monitor_board_marker : Text
monitor_board_marker = codes "<!-- playbook-task-mode: monitor-board -->"

-- `[ \t]`
unfoldable pub is_blank : ℕ → Bool
is_blank c = c == b' ' || c == b'\t'

-- `[ \t]*`
unfoldable pub skip_blanks : Text → Text
unfolding is_blank
skip_blanks [] = []
skip_blanks (c ∷ t) = if is_blank c then skip_blanks t else c ∷ t

-- `(?:\r?\n)?$`, behind the last blank.
unfoldable pub at_end : Text → Bool
at_end [] = true
at_end (c ∷ []) = c == b'\n'
at_end (c ∷ d ∷ []) = c == b'\r' && d == b'\n'
at_end (c ∷ d ∷ e ∷ t) = false

-- Whether `.+?` finds a character before the end of the line.
unfoldable pub has_content : Text → Bool
has_content [] = false
has_content (c ∷ []) = not (c == b'\n')
has_content (c ∷ d ∷ t) = true

abbrev pub heading_rest : Text → Option Text
heading_rest [] = none
heading_rest (c ∷ t) = if is_blank c && has_content t then some (strip t) else none

-- `_HEADING`: the title, `group(1).strip()`.
unfoldable pub heading_title : Text → Option Text
heading_title line = and_then (after_prefix (codes "##") line) heading_rest

-- `[ ]{0,3}`, where a fence must follow.
unfoldable pub skip_spaces : ℕ → Text → Text
skip_spaces zero t = t
skip_spaces (suc n) [] = []
skip_spaces (suc n) (c ∷ t) = if c == b' ' then skip_spaces n t else c ∷ t

-- How often `m` stands at the front.
unfoldable pub run_length : ℕ → Text → ℕ
run_length m [] = 0
run_length m (c ∷ t) = if c == m then suc (run_length m t) else 0

abbrev pub fence_at : Text → Option (ℕ × ℕ)
fence_at [] = none
fence_at (c ∷ t) =
    let width = run_length c (c ∷ t) in
    if (c == b'`' || c == b'~') && leb 3 width then some (c, width) else none

-- `_FENCE`: the character of the fence and its width.
unfoldable pub fence_match : Text → Option (ℕ × ℕ)
fence_match line = fence_at (skip_spaces 3 line)

-- `-[ \t]+`
unfoldable pub after_dash : Text → Option Text
unfolding skip_blanks
after_dash [] = none
after_dash (d ∷ []) = none
after_dash (d ∷ b ∷ t) = if d == b'-' && is_blank b then some (skip_blanks t) else none

-- `\[([ xX])\]`, and the stripped text behind it.
unfoldable pub gate_box : Text → Option (ℕ × Text)
gate_box (o ∷ m ∷ c ∷ t) =
    if o == b'[' && (m == b' ' || m == b'x' || m == b'X') && c == b']'
    then some (m, strip t)
    else none
gate_box _ = none

-- `_GATE`: the mark in the box, and `group(2).strip()`.
unfoldable pub gate_match : Text → Option (ℕ × Text)
unfolding after_dash
gate_match line = and_then (after_dash (skip_blanks line)) gate_box

unfoldable pub is_provider_char : ℕ → Bool
unfolding is_alnum
is_provider_char c = is_alnum c || c == b'_' || c == b'-'

-- `[a-zA-Z0-9_-]+:` with what follows the colon; `seen` says that a character was read.
unfoldable pub provider_part : Bool → Text → Option (Text × Text)
unfolding is_provider_char
provider_part seen [] = none
provider_part seen (c ∷ t) =
    let rest = provider_part true t in
    if is_provider_char c
    then and_then rest (λ r. some (c ∷ r.0, r.1))
    else if c == b':' && seen
    then some ([], t)
    else none

-- `[^\s]+`, as far as it goes, and the rest.
unfoldable pub take_word : Text → Text × Text
take_word [] = ([], [])
take_word (c ∷ t) = let (w, r) = take_word t in if is_space c then ([], c ∷ t) else (c ∷ w, r)

session_parts : Text × Text → Option (Text × Text)
unfolding take_word at_end
session_parts (provider, t) =
    let (word, rest) = take_word t in
    if not (is_empty word) && at_end (skip_blanks rest) then some (provider, word) else none

-- `_SESSION`: the provider and the session id.
unfoldable pub session_match : Text → Option (Text × Text)
unfolding after_dash provider_part session_parts
session_match line =
    and_then (after_dash (skip_blanks line)) (λ t. and_then (provider_part false t) session_parts)

-- `stripped.endswith(":") and stripped.startswith("- **")`: an empty required field.
unfoldable pub is_required_field : Text → Bool
is_required_field stripped = ends_with (codes ":") stripped && starts_with (codes "- **") stripped

-- `_line_ending`
unfoldable pub line_ending : Text → Text
unfolding ends_with text_eq
line_ending line =
    if ends_with (codes "\r\n") line
    then codes "\r\n"
    else if ends_with (codes "\n") line
    then codes "\n"
    else []
