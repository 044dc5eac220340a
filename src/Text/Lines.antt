-- ===== src/Text/Lines.antt =====
-- `str.splitlines(keepends=True)`, the `"".join` that undoes it, and when splitting again gives
-- the same lines.
use playbook_harness.Base.{
  ℕ, ◌≡◌, refl, ap, ◌∙◌, inl, inr, Bool, true, false, not, ◌&&◌, ◌||◌, List, [], ◌∷◌, ◌++◌, arith,
  ◌==◌, if◌then◌else◌, All, Bool-cases,
}
use playbook_harness.Text.{Text, within, codes}

-- The line boundaries of `str.splitlines`.
unfoldable pub is_break : ℕ → Bool
is_break c = within 10 13 c || within 0x1c 0x1e c || c == 0x85 || c == 0x2028 || c == 0x2029

abbrev pub starts_newline : Text → Bool
starts_newline [] = false
starts_newline (c ∷ t) = c == b'\n'

abbrev pub push : ℕ → List Text → List Text
push c [] = (c ∷ []) ∷ []
push c (l ∷ ls) = (c ∷ l) ∷ ls

-- A boundary ends its line, but for a carriage return before a newline.
abbrev pub ends_line : ℕ → Text → Bool
ends_line c t = is_break c && not (c == b'\r' && starts_newline t)

unfoldable pub splitlines : Text → List Text
splitlines [] = []
splitlines (c ∷ t) =
    let rest = splitlines t in if ends_line c t then (c ∷ []) ∷ rest else push c rest

-- `"".join(lines)`
abbrev pub join : List Text → Text
join [] = []
join (l ∷ ls) = l ++ join ls

join-push : (c : ℕ) (ls : List Text) → join (push c ls) ≡ c ∷ join ls
join-push c [] = refl
join-push c (l ∷ ls) = refl

-- Joining the lines of a text gives the text back.
pub join-splitlines : (t : Text) → join (splitlines t) ≡ t
unfolding splitlines
join-splitlines [] = refl
join-splitlines (c ∷ t) = elim (Bool-cases (ends_line c t)) [
  | inl e ↦ rw e (ap (◌∷◌ c) (join-splitlines t))
  | inr e ↦ rw e (join-push c (splitlines t) ∙ ap (◌∷◌ c) (join-splitlines t))
]

-- A line that is ended by its last character, and by no other.
unfoldable pub is_closed : Text → Bool
unfolding is_break
is_closed [] = false
is_closed (c ∷ []) = c == b'\n'
is_closed (c ∷ d ∷ t) = not (ends_line c (d ∷ t)) && is_closed (d ∷ t)

abbrev pub IsClosed : Text → Type 0
IsClosed l = is_closed l ≡ true

pub splitlines-closed : (l t : Text) → IsClosed l → splitlines (l ++ t) ≡ l ∷ splitlines t
unfolding splitlines is_closed
splitlines-closed [] t h = cc
splitlines-closed (c ∷ []) t h = ground arith
splitlines-closed (c ∷ d ∷ l) t h = elim (Bool-cases (ends_line c (d ∷ l))) [
  | inl e ↦ absurd (ground arith)
  | inr e ↦ rw (e, splitlines-closed (d ∷ l) t (ground arith))
]

-- Closed lines are found again.
pub splitlines-join : (ls : List Text) → All IsClosed ls → splitlines (join ls) ≡ ls
unfolding splitlines
splitlines-join [] h = refl
splitlines-join (l ∷ ls) h = splitlines-closed l (join ls) h.0 ∙ ap (◌∷◌ l) (splitlines-join ls h.1)

crlf : splitlines (codes "a\r\nb\rc\n") ≡ codes "a\r\n" ∷ codes "b\r" ∷ codes "c\n" ∷ []
unfolding splitlines is_break
crlf = refl
