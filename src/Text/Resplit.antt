-- ===== src/Text/Resplit.antt =====
-- Replacing characters that are no line boundaries leaves the lines where they are.
use playbook_harness.Base.{
  ℕ, ◌≡◌, refl, sym, subst, ◌∙◌, inl, inr, List, [], ◌∷◌, ◌++◌, ◌==◌, Bool-cases,
}
use playbook_harness.Text.{Text}
use playbook_harness.Text.Lines.{
  is_break, splitlines, join, join-splitlines, push, ends_line, starts_newline,
}

-- Two texts of one length whose boundaries are the same.
abbrev pub Same : Text → Text → Type 0
Same [] [] = Unit
Same (a ∷ s) (b ∷ t) =
    (is_break a ≡ is_break b)
    × ((a == b'\r') ≡ (b == b'\r'))
    × ((a == b'\n') ≡ (b == b'\n'))
    × Same s t
Same [] (b ∷ t) = ⊥
Same (a ∷ s) [] = ⊥

abbrev pub SameLines : List Text → List Text → Type 0
SameLines [] [] = Unit
SameLines (l ∷ ls) (m ∷ ms) = Same l m × SameLines ls ms
SameLines [] (m ∷ ms) = ⊥
SameLines (l ∷ ls) [] = ⊥

pub Same-refl : (s : Text) → Same s s
Same-refl [] = tt
Same-refl (a ∷ s) = (refl, refl, refl, Same-refl s)

Same-sym : (s t : Text) → Same s t → Same t s
Same-sym [] [] h = tt
Same-sym (a ∷ s) (b ∷ t) h = (sym h.0, sym h.1, sym h.2, Same-sym s t h.3)
Same-sym [] (b ∷ t) h = absurd h
Same-sym (a ∷ s) [] h = absurd h

Same-trans : (s t u : Text) → Same s t → Same t u → Same s u
Same-trans [] [] u h k = k
Same-trans (a ∷ s) (b ∷ t) (c ∷ u) h k = (h.0 ∙ k.0, h.1 ∙ k.1, h.2 ∙ k.2, Same-trans s t u h.3 k.3)
Same-trans [] (b ∷ t) u h k = absurd h
Same-trans (a ∷ s) [] u h k = absurd h
Same-trans (a ∷ s) (b ∷ t) [] h k = absurd k

pub Same-append : (s t u v : Text) → Same s t → Same u v → Same (s ++ u) (t ++ v)
Same-append [] [] u v h k = k
Same-append (a ∷ s) (b ∷ t) u v h k = (h.0, h.1, h.2, Same-append s t u v h.3 k)
Same-append [] (b ∷ t) u v h k = absurd h
Same-append (a ∷ s) [] u v h k = absurd h

pub SameLines-refl : (ls : List Text) → SameLines ls ls
SameLines-refl [] = tt
SameLines-refl (l ∷ ls) = (Same-refl l, SameLines-refl ls)

SameLines-sym : (ls ms : List Text) → SameLines ls ms → SameLines ms ls
SameLines-sym [] [] h = tt
SameLines-sym (l ∷ ls) (m ∷ ms) h = (Same-sym l m h.0, SameLines-sym ls ms h.1)
SameLines-sym [] (m ∷ ms) h = absurd h
SameLines-sym (l ∷ ls) [] h = absurd h

SameLines-trans : (ls ms ns : List Text) → SameLines ls ms → SameLines ms ns → SameLines ls ns
SameLines-trans [] [] ns h k = k
SameLines-trans (l ∷ ls) (m ∷ ms) (n ∷ ns) h k =
    (Same-trans l m n h.0 k.0, SameLines-trans ls ms ns h.1 k.1)
SameLines-trans [] (m ∷ ms) ns h k = absurd h
SameLines-trans (l ∷ ls) [] ns h k = absurd h
SameLines-trans (l ∷ ls) (m ∷ ms) [] h k = absurd k

Same-join : (ls ms : List Text) → SameLines ls ms → Same (join ls) (join ms)
Same-join [] [] h = tt
Same-join (l ∷ ls) (m ∷ ms) h = Same-append l m (join ls) (join ms) h.0 (Same-join ls ms h.1)
Same-join [] (m ∷ ms) h = absurd h
Same-join (l ∷ ls) [] h = absurd h

SameLines-push :
    (c d : ℕ) (ls ms : List Text)
    → (is_break c ≡ is_break d) × ((c == b'\r') ≡ (d == b'\r')) × ((c == b'\n') ≡ (d == b'\n'))
    → SameLines ls ms
    → SameLines (push c ls) (push d ms)
SameLines-push c d [] [] e h = ((e.0, e.1, e.2, tt), tt)
SameLines-push c d (l ∷ ls) (m ∷ ms) e h = ((e.0, e.1, e.2, h.0), h.1)
SameLines-push c d [] (m ∷ ms) e h = absurd h
SameLines-push c d (l ∷ ls) [] e h = absurd h

starts_newline-Same : (s t : Text) → Same s t → starts_newline s ≡ starts_newline t
starts_newline-Same [] [] h = refl
starts_newline-Same (a ∷ s) (b ∷ t) h = h.2
starts_newline-Same [] (b ∷ t) h = absurd h
starts_newline-Same (a ∷ s) [] h = absurd h

SameLines-splitlines : (s t : Text) → Same s t → SameLines (splitlines s) (splitlines t)
unfolding splitlines
SameLines-splitlines [] [] h = tt
SameLines-splitlines (a ∷ s) (b ∷ t) h =
    let e : ends_line a s ≡ ends_line b t = cc (starts_newline-Same s t h.3, h.0, h.1) in
    elim (Bool-cases (ends_line b t)) [
      | inl y ↦ rw (e, y) ((h.0, h.1, h.2, tt), SameLines-splitlines s t h.3)
      | inr n ↦ rw (e, n) (SameLines-push a b _ _ (h.0, h.1, h.2) (SameLines-splitlines s t h.3))
    ]
SameLines-splitlines [] (b ∷ t) h = absurd h
SameLines-splitlines (a ∷ s) [] h = absurd h

append_inj : (l m r q : Text) → Same l m → l ++ r ≡ m ++ q → (l ≡ m) × (r ≡ q)
append_inj [] [] r q h e = (refl, e)
append_inj (a ∷ l) (b ∷ m) r q h e = let k = append_inj l m r q h.3 (cc) in (cc (k.0), k.1)
append_inj [] (b ∷ m) r q h e = absurd h
append_inj (a ∷ l) [] r q h e = absurd h

SameLines-eq : (ls ms : List Text) → SameLines ls ms → join ls ≡ join ms → ls ≡ ms
SameLines-eq [] [] h e = refl
SameLines-eq (l ∷ ls) (m ∷ ms) h e =
    let k = append_inj l m (join ls) (join ms) h.0 e in cc (k.0, SameLines-eq ls ms h.1 k.1)
SameLines-eq [] (m ∷ ms) h e = absurd h
SameLines-eq (l ∷ ls) [] h e = absurd h

-- Lines that differ from those of a text only between the boundaries are found again.
pub splitlines-join_same :
    (t : Text) (ms : List Text) → SameLines (splitlines t) ms → splitlines (join ms) ≡ ms
splitlines-join_same t ms h =
    let s : Same t (join ms) =
      subst (λ u. Same u (join ms)) (join-splitlines t) (Same-join (splitlines t) ms h) in
    sym (
      SameLines-eq ms (splitlines (join ms))
        (SameLines-trans ms (splitlines t) (splitlines (join ms))
          (SameLines-sym (splitlines t) ms h) (SameLines-splitlines t (join ms) s))
        (sym (join-splitlines (join ms))))
