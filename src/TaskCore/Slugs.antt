-- ===== src/TaskCore/Slugs.antt =====
-- The form of the names that new tasks get.
use playbook_harness.Base.{
  ℕ, ◌≡◌, refl, Bool, true, false, not, ◌&&◌, ◌||◌, [], ◌∷◌, arith, if◌then◌else◌, is_empty,
}
use playbook_harness.Text.{Text, within, lower, lower_char}
use playbook_harness.Detection.{is_digit}
use playbook_harness.TaskCore.{
  is_dash, is_gap, is_slug_char, sub_runs, keep_slug_chars, lstrip_dashes, rstrip_dashes, slugify,
}

-- The characters of a class and single dashes; the flag forbids a dash at the start.
rough : Bool → Text → Bool
rough dash [] = true
rough dash (c ∷ t) =
    let after = rough true t in
    let within_word = rough false t in
    if is_dash c then not dash && after else is_slug_char c && within_word

-- Words of a class, with single dashes between them.
unfoldable pub words : (ℕ → Bool) → Bool → Text → Bool
words p dash [] = not dash
words p dash (c ∷ t) =
    let after = words p true t in
    let within_word = words p false t in if is_dash c then not dash && after else p c && within_word

unfoldable pub is_lower_alnum : ℕ → Bool
is_lower_alnum c = within b'a' b'z' c || is_digit c

-- `[a-z0-9]+(-[a-z0-9]+)*`, or nothing.
unfoldable pub is_slug : Text → Bool
is_slug t = is_empty t || words is_lower_alnum true t

dash-is_dash : is_dash b'-' ≡ true
unfolding is_dash
dash-is_dash = refl

collapsed-rough :
    (dash : Bool) (t : Text) → rough dash (sub_runs is_dash dash (keep_slug_chars t)) ≡ true
unfolding rough keep_slug_chars sub_runs
collapsed-rough dash [] = refl
collapsed-rough dash (c ∷ t) =
    ground
      (arith, collapsed-rough true t, collapsed-rough false t, collapsed-rough dash t, dash-is_dash)

lstrip-rough : (dash : Bool) (t : Text) → rough dash t ≡ true → rough true (lstrip_dashes t) ≡ true
unfolding rough lstrip_dashes
lstrip-rough dash [] h = refl
lstrip-rough dash (c ∷ t) h = ground (arith, lstrip-rough true t)

rstrip-words :
    (dash : Bool) (t : Text)
    → rough dash t ≡ true
    → (is_empty (rstrip_dashes t) || words is_slug_char dash (rstrip_dashes t)) ≡ true
unfolding rough rstrip_dashes words
rstrip-words dash [] h = refl
rstrip-words dash (c ∷ t) h = ground (arith, rstrip-words true t, rstrip-words false t)

lower-class : (c : ℕ) → is_slug_char c ≡ true → is_lower_alnum (lower_char c) ≡ true
unfolding is_slug_char is_lower_alnum lower_char
lower-class c h = ground arith

lower-dash : (c : ℕ) → is_dash (lower_char c) ≡ is_dash c
unfolding is_dash lower_char
lower-dash c = ground arith

lower-words :
    (dash : Bool) (t : Text)
    → words is_slug_char dash t ≡ true
    → words is_lower_alnum dash (lower t) ≡ true
unfolding words lower
lower-words dash [] h = h
lower-words dash (c ∷ t) h =
    rw (lower-dash c) (ground (arith, lower-class c, lower-words true t, lower-words false t))

is_empty-lower : (t : Text) → is_empty (lower t) ≡ is_empty t
unfolding lower
is_empty-lower [] = refl
is_empty-lower (c ∷ t) = refl

pub slugify-is_slug : (name : Text) → is_slug (slugify name) ≡ true
unfolding is_slug slugify
slugify-is_slug name =
    let kept = keep_slug_chars (sub_runs is_gap false name) in
    let stripped = lstrip_dashes (sub_runs is_dash false kept) in
    let h = rstrip-words true stripped (
      lstrip-rough false (sub_runs is_dash false kept)
        (collapsed-rough false (sub_runs is_gap false name))) in
    rw (is_empty-lower (rstrip_dashes stripped))
      (ground (arith, h, lower-words true (rstrip_dashes stripped)))
