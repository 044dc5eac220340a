-- ===== src/TaskCore/Letters.antt =====
-- What the names that new tasks get keep of the title.
use playbook_harness.Base.{
  ℕ, ◌≡◌, refl, ◌∙◌, ap, Bool, true, false, [], ◌∷◌, arith, if◌then◌else◌, is_empty,
}
use playbook_harness.Text.{Text, is_space, lower, lower_char}
use playbook_harness.TaskCore.{
  is_dash, is_gap, is_slug_char, sub_runs, keep_slug_chars, lstrip_dashes, rstrip_dashes, slugify,
}
use playbook_harness.TaskCore.Slugs.{is_slug, slugify-is_slug}

-- The letters and digits of a text.
unfoldable pub letters : Text → Text
letters [] = []
letters (c ∷ t) = let rest = letters t in if is_slug_char c then c ∷ rest else rest

dash-no_alnum : (c : ℕ) → is_dash c ≡ true → is_slug_char c ≡ false
unfolding is_dash is_slug_char
dash-no_alnum c h = ground arith

gap-no_alnum : (c : ℕ) → is_gap c ≡ true → is_slug_char c ≡ false
unfolding is_gap is_slug_char is_space
gap-no_alnum c h = ground arith

dash-dropped : is_slug_char b'-' ≡ false
unfolding is_slug_char
dash-dropped = refl

letters-sub_runs :
    (p : ℕ → Bool) (in_run : Bool) (t : Text)
    → ((c : ℕ) → p c ≡ true → is_slug_char c ≡ false)
    → letters (sub_runs p in_run t) ≡ letters t
unfolding letters sub_runs
letters-sub_runs p in_run [] h = refl
letters-sub_runs p in_run (c ∷ t) h =
    ground (arith, letters-sub_runs p true t h, letters-sub_runs p false t h, h c, dash-dropped)

letters-keep_slug_chars : (t : Text) → letters (keep_slug_chars t) ≡ letters t
unfolding letters keep_slug_chars
letters-keep_slug_chars [] = refl
letters-keep_slug_chars (c ∷ t) = ground (arith, letters-keep_slug_chars t)

letters-lstrip : (t : Text) → letters (lstrip_dashes t) ≡ letters t
unfolding letters lstrip_dashes
letters-lstrip [] = refl
letters-lstrip (c ∷ t) = ground (arith, letters-lstrip t, dash-no_alnum c)

letters-empty : (t : Text) → is_empty t ≡ true → letters t ≡ []
unfolding letters
letters-empty [] h = refl
letters-empty (c ∷ t) h = ground arith

letters-rstrip : (t : Text) → letters (rstrip_dashes t) ≡ letters t
unfolding letters rstrip_dashes
letters-rstrip [] = refl
letters-rstrip (c ∷ t) =
    ground (arith, letters-rstrip t, dash-no_alnum c, letters-empty (rstrip_dashes t))

lower-alnum : (c : ℕ) → is_slug_char (lower_char c) ≡ is_slug_char c
unfolding is_slug_char lower_char
lower-alnum c = ground arith

letters-lower : (t : Text) → letters (lower t) ≡ lower (letters t)
unfolding letters lower
letters-lower [] = refl
letters-lower (c ∷ t) = ground (arith, letters-lower t, lower-alnum c)

-- The slug of any title is empty or made of words of small letters and digits with single dashes
-- between them, and has the letters and digits of the title in their order, in small letters.
pub slugify-letters :
    (name : Text)
    → (is_slug (slugify name) ≡ true) × (letters (slugify name) ≡ lower (letters name))
unfolding slugify
slugify-letters name =
    let gapless = sub_runs is_gap false name in
    let single = sub_runs is_dash false (keep_slug_chars gapless) in
    (
      slugify-is_slug name,
      letters-lower (rstrip_dashes (lstrip_dashes single))
          ∙ ap lower (
              letters-rstrip (lstrip_dashes single)
              ∙ letters-lstrip single
              ∙ letters-sub_runs is_dash false (keep_slug_chars gapless) dash-no_alnum
              ∙ letters-keep_slug_chars gapless
              ∙ letters-sub_runs is_gap false name gap-no_alnum),
    )
