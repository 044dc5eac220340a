-- ===== src/TaskDocument/GateLine.antt =====
-- Closing the box of a line: what the replacement of `[ ]` does to the line of an open gate.
use playbook_harness.Base.{
  ℕ, ◌≡◌, refl, ap, sym, ◌∙◌, subst, true, false, Option, none, some, [], ◌∷◌, arith, ◌==◌,
  Bool-cases, inl, inr, and_then,
}
use playbook_harness.Text.{
  Text, codes, is_blank_line, lstrip, rstrip, strip, is_space, starts_with, after_prefix,
}
use playbook_harness.Text.Lines.{is_break}
use playbook_harness.Text.Resplit.{Same, Same-refl}
use playbook_harness.Text.Edit.{replace_first}
use playbook_harness.TaskDocument.Grammar.{
  is_blank, skip_blanks, after_dash, gate_box, gate_match, session_match, provider_part,
}
use playbook_harness.TaskDocument.Document.{is_checked_mark}
use playbook_harness.TaskDocument.Gates.{close_box}
use playbook_harness.TaskDocument.Neutral.{IsNeutral, is_special}

close_box-cons : (c : ℕ) (t : Text) → (c == b'[') ≡ false → close_box (c ∷ t) ≡ c ∷ close_box t
unfolding replace_first starts_with after_prefix
close_box-cons c t h = ground arith

close_box-open : (t : Text) → close_box (b'[' ∷ b' ' ∷ b']' ∷ t) ≡ b'[' ∷ b'x' ∷ b']' ∷ t
unfolding replace_first starts_with after_prefix
close_box-open t = refl

blank_not_open : (c : ℕ) → is_blank c ≡ true → (c == b'[') ≡ false
unfolding is_blank
blank_not_open c h = ground arith

blank_is_space : (c : ℕ) → is_blank c ≡ true → is_space c ≡ true
unfolding is_blank is_space
blank_is_space c h = ground arith

-- The box of an open gate.
gate_box-open :
    (r : Text) {m : ℕ} {text : Text}
    → gate_box r ≡ some (m, text)
    → is_checked_mark m ≡ false
    → (t : Text) × (r ≡ b'[' ∷ b' ' ∷ b']' ∷ t) × (text ≡ strip t)
unfolding gate_box
gate_box-open [] h u = cc
gate_box-open (o ∷ []) h u = cc
gate_box-open (o ∷ n ∷ []) h u = cc
gate_box-open (o ∷ n ∷ c ∷ t) h u = (t, ground arith, ground arith)

pub skip_blanks-close_box :
    (l : Text) {c : ℕ} {t : Text}
    → skip_blanks l ≡ c ∷ t
    → (c == b'[') ≡ false
    → skip_blanks (close_box l) ≡ c ∷ close_box t
unfolding skip_blanks
skip_blanks-close_box [] h n = cc
skip_blanks-close_box (x ∷ l) {c} {t} h n = elim (Bool-cases (is_blank x)) [
  | inl e ↦ rw (close_box-cons x l (blank_not_open x e), e) (skip_blanks-close_box l (rw e at h) n)
  | inr e ↦
      let p : (x ≡ c) × (l ≡ t) = let q : x ∷ l ≡ c ∷ t = rw e at h in (cc, cc) in
      rw (close_box-cons x l (rw p.0 n), e) (cc (p.0, p.1))
]

skip_blanks-close_box_open :
    (l t : Text)
    → skip_blanks l ≡ b'[' ∷ b' ' ∷ b']' ∷ t
    → skip_blanks (close_box l) ≡ b'[' ∷ b'x' ∷ b']' ∷ t
unfolding skip_blanks
skip_blanks-close_box_open [] t h = cc
skip_blanks-close_box_open (x ∷ l) t h = elim (Bool-cases (is_blank x)) [
  | inl e ↦
      rw (close_box-cons x l (blank_not_open x e), e) (skip_blanks-close_box_open l t (rw e at h))
  | inr e ↦ let q : x ∷ l ≡ b'[' ∷ b' ' ∷ b']' ∷ t = rw e at h in rw (q, close_box-open) refl
]

-- The line of an open gate, taken apart.
pub record OpenLine (l text : Text) : Type 0 where
  pub blank : ℕ
  pub after : Text
  pub rest : Text
  pub dash : skip_blanks l ≡ b'-' ∷ blank ∷ after
  pub blank_is : is_blank blank ≡ true
  pub box : skip_blanks after ≡ b'[' ∷ b' ' ∷ b']' ∷ rest
  pub text_eq : text ≡ strip rest

after_dash-some :
    (u r : Text)
    → after_dash u ≡ some r
    → (b : ℕ) × (v : Text) × (u ≡ b'-' ∷ b ∷ v) × (is_blank b ≡ true) × (r ≡ skip_blanks v)
unfolding after_dash
after_dash-some [] r h = cc
after_dash-some (d ∷ []) r h = cc
after_dash-some (d ∷ b ∷ v) r h = (b, v, ground arith, ground arith, ground arith)

pub gate_match-OpenLine :
    (l : Text) {m : ℕ} {text : Text}
    → gate_match l ≡ some (m, text)
    → is_checked_mark m ≡ false
    → OpenLine l text
unfolding gate_match
gate_match-OpenLine l {m} {text} h u = go (after_dash (skip_blanks l)) refl
  where
    go : (o : Option Text) → after_dash (skip_blanks l) ≡ o → OpenLine l text
    go none e = cc (ap (λ x. and_then x gate_box) e)
    go (some r) e =
        let (b, v, p, q, w) = after_dash-some (skip_blanks l) r e in
        let (t, x, y) = gate_box-open r (sym (ap (λ z. and_then z gate_box) e) ∙ h) u in
        record {
          blank = b;
          after = v;
          rest = t;
          dash = p;
          blank_is = q;
          box = sym w ∙ x;
          text_eq = y;
        }

module _ (l text : Text) (o : OpenLine l text) where
  -- The box is checked, and the text of the gate stays.
  pub gate_match-close_box : gate_match (close_box l) ≡ some (b'x', text)
  unfolding gate_match after_dash gate_box
  gate_match-close_box =
      let e : skip_blanks (close_box l) ≡ b'-' ∷ close_box (o.blank ∷ o.after) =
        skip_blanks-close_box l o.dash refl in
      let f : close_box (o.blank ∷ o.after) ≡ o.blank ∷ close_box o.after =
        close_box-cons o.blank o.after (blank_not_open o.blank o.blank_is) in
      let g : skip_blanks (close_box o.after) ≡ b'[' ∷ b'x' ∷ b']' ∷ o.rest =
        skip_blanks-close_box_open o.after o.rest o.box in
      ground (arith, e, f, g)

  -- Neither line is a session entry, and both are neutral and not blank.
  pub session_match-open : session_match l ≡ none
  unfolding session_match after_dash provider_part
  session_match-open = ground arith

pub lstrip-skip_blanks :
    (l : Text) {c : ℕ} {t : Text} → skip_blanks l ≡ c ∷ t → is_space c ≡ false → lstrip l ≡ c ∷ t
unfolding skip_blanks lstrip
lstrip-skip_blanks [] h n = cc
lstrip-skip_blanks (x ∷ l) {c} {t} h n = elim (Bool-cases (is_blank x)) [
  | inl e ↦ rw (blank_is_space x e) (lstrip-skip_blanks l (rw e at h) n)
  | inr e ↦ let q : x ∷ l ≡ c ∷ t = rw e at h in let p : x ≡ c = cc in rw (ap is_space p ∙ n) q
]

-- A dash in front makes a line neutral and not blank.
pub dash-IsNeutral : (l t : Text) → skip_blanks l ≡ b'-' ∷ t → IsNeutral l
unfolding is_special is_space
dash-IsNeutral l t h = rw (lstrip-skip_blanks l h refl) refl

pub dash-is_blank_line : (l t : Text) → skip_blanks l ≡ b'-' ∷ t → is_blank_line l ≡ false
unfolding is_blank_line strip rstrip is_space
dash-is_blank_line l t h = rw (lstrip-skip_blanks l h refl) refl

starts_with-open :
    (l : Text) → starts_with (codes "[ ]") l ≡ true → (t : Text) × (l ≡ b'[' ∷ b' ' ∷ b']' ∷ t)
unfolding starts_with after_prefix
starts_with-open [] h = cc
starts_with-open (c ∷ []) h = absurd (ground arith)
starts_with-open (c ∷ d ∷ []) h = absurd (ground arith)
starts_with-open (c ∷ d ∷ e ∷ t) h = (t, ground arith)

open_box-Same : (t : Text) → Same (b'[' ∷ b' ' ∷ b']' ∷ t) (b'[' ∷ b'x' ∷ b']' ∷ t)
unfolding is_break
open_box-Same t = (refl, refl, refl, (refl, refl, refl, (refl, refl, refl, Same-refl t)))

close_box-step :
    (c : ℕ) (t : Text)
    → starts_with (codes "[ ]") (c ∷ t) ≡ false
    → close_box (c ∷ t) ≡ c ∷ close_box t
unfolding replace_first
close_box-step c t h = rw h refl

-- Closing a box changes no boundary of a line.
pub Same-close_box : (l : Text) → Same l (close_box l)
unfolding replace_first
Same-close_box [] = tt
Same-close_box (c ∷ l) = elim (Bool-cases (starts_with (codes "[ ]") (c ∷ l))) [
  | inl h ↦
      let (t, e) = starts_with-open (c ∷ l) h in
      subst (λ u. Same u (close_box u)) (sym e)
        (subst (Same (b'[' ∷ b' ' ∷ b']' ∷ t)) (sym (close_box-open t)) (open_box-Same t))
  | inr h ↦ subst (Same (c ∷ l)) (sym (close_box-step c l h)) (refl, refl, refl, Same-close_box l)
]
