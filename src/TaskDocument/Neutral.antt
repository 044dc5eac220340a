-- ===== src/TaskDocument/Neutral.antt =====
-- Lines that leave the state of the scan as it is: all but headings, fences and the marks of
-- captured chat.
use playbook_harness.Base.{
  ℕ, zero, suc, ◌≡◌, refl, ap, Bool, true, false, not, ◌&&◌, ◌||◌, Option, none, some, List, [],
  ◌∷◌, arith, ◌==◌, Bool-cases, ==_iff, inl, inr, get_elem?, set,
}
use playbook_harness.Text.{Text, text_eq, lstrip, rstrip, strip, is_space, after_prefix}
use playbook_harness.TaskDocument.Grammar.{
  opaque_start, opaque_end, fence_match, fence_at, skip_spaces, heading_title,
}
use playbook_harness.TaskDocument.Scan.{State, Mark, scan_line, scan, scan_end}

-- `#`, a fence character or the start of an HTML comment.
unfoldable pub is_special : ℕ → Bool
is_special c = c == b'#' || c == b'`' || c == b'~' || c == b'<'

abbrev pub plain_start : Text → Bool
plain_start [] = true
plain_start (c ∷ t) = not (is_special c)

-- The first character that is no white space is not special.
abbrev pub IsNeutral : Text → Type 0
IsNeutral l = plain_start (lstrip l) ≡ true

abbrev is_none {ℓ} : {A : Type ℓ} → Option A → Bool
is_none none = true
is_none (some a) = false

abbrev pub neutral_mark : State → Mark
neutral_mark s = record { semantic = not s.opaque && is_none s.fence; heading = none }

special-not_space : (c : ℕ) → is_special c ≡ true → is_space c ≡ false
unfolding is_special is_space
special-not_space c h = ground arith

pub blank-is_space : (c : ℕ) → c ≡ b' ' → is_space c ≡ true
unfolding is_space
blank-is_space c h = rw h

-- What stands first in a neutral line is white space or not special.
IsNeutral-cases :
    (c : ℕ) (l : Text)
    → IsNeutral (c ∷ l)
    → (is_special c ≡ false) × ((is_space c ≡ true) → IsNeutral l)
unfolding lstrip
IsNeutral-cases c l h = ground (arith, special-not_space c)

fence_at_plain : (c : ℕ) (l : Text) → is_special c ≡ false → fence_at (c ∷ l) ≡ none
unfolding is_special
fence_at_plain c l h = ground arith

fence_at-neutral : (n : ℕ) (l : Text) → IsNeutral l → fence_at (skip_spaces n l) ≡ none
unfolding skip_spaces
fence_at-neutral zero [] h = refl
fence_at-neutral (suc n) [] h = refl
fence_at-neutral zero (c ∷ l) h = fence_at_plain c l (IsNeutral-cases c l h).0
fence_at-neutral (suc n) (c ∷ l) h = elim (Bool-cases (c == b' ')) [
  | inl e ↦
      rw e
        (fence_at-neutral n l ((IsNeutral-cases c l h).1 (blank-is_space c ((==_iff c b' ').0 e))))
  | inr e ↦ rw e (fence_at_plain c l (IsNeutral-cases c l h).0)
]

heading_title-neutral : (l : Text) → IsNeutral l → heading_title l ≡ none
unfolding heading_title after_prefix is_special
heading_title-neutral [] h = refl
heading_title-neutral (c ∷ l) h = ground (arith, (IsNeutral-cases c l h).0)

strip-neutral : (l : Text) (t : Text) → IsNeutral l → text_eq (strip l) (b'<' ∷ t) ≡ false
unfolding strip rstrip text_eq is_special
strip-neutral l t h = go (lstrip l) h
  where
    go : (u : Text) → plain_start u ≡ true → text_eq (rstrip u) (b'<' ∷ t) ≡ false
    go [] h = refl
    go (c ∷ u) h = ground arith

pub scan_line-neutral : (s : State) (l : Text) → IsNeutral l → scan_line s l ≡ (s, neutral_mark s)
unfolding scan_line fence_match
scan_line-neutral s l h =
    let e : text_eq (strip l) opaque_start ≡ false = strip-neutral l _ h in
    let f : text_eq (strip l) opaque_end ≡ false = strip-neutral l _ h in
    ground (arith, e, f, fence_at-neutral 3 l h, heading_title-neutral l h)

-- Putting one neutral line for another changes no mark.
module _ (l l' : Text) (h : IsNeutral l) (h' : IsNeutral l') where
  pub scan-set :
      (s : State) (ls : List Text) (i : ℕ)
      → get_elem? ls i ≡ some l
      → (scan s (set ls i l') ≡ scan s ls) × (scan_end s (set ls i l') ≡ scan_end s ls)
  unfolding scan scan_end
  scan-set s [] i e = (refl, refl)
  scan-set s (x ∷ ls) zero e =
      let k : scan_line s l' ≡ scan_line s x =
        cc (scan_line-neutral s l h, scan_line-neutral s l' h') in
      (ap (λ r. r.1 ∷ scan r.0 ls) k, ap (λ r. scan_end r.0 ls) k)
  scan-set s (x ∷ ls) (suc i) e =
      let r = scan-set (scan_line s x).0 ls i e in (ap (◌∷◌ (scan_line s x).1) r.0, r.1)
