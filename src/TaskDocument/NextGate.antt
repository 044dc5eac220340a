-- ===== src/TaskDocument/NextGate.antt =====
-- `complete_next_gate` closes the first open gate and nothing else.
use playbook_harness.Base.{
  ℕ, zero, suc, ◌+◌, ◌≡◌, refl, ap, subst, true, false, none, some, List, [], ◌∷◌, arith,
  if◌then◌else◌, Bool-cases, Option-cases, ◌⊎◌, inl, inr, get_elem?, get_or, set, length,
}
use playbook_harness.Text.{Text}
use playbook_harness.Text.Lines.{}
use playbook_harness.Text.Resplit.{Same, Same-refl, SameLines, SameLines-refl}
use playbook_harness.Identity.{}
use playbook_harness.TaskDocument.Grammar.{gate_match}
use playbook_harness.TaskDocument.Scan.{Mark}
use playbook_harness.TaskDocument.Document.{TaskGate, gates_from, is_checked_mark, count_checked}
use playbook_harness.TaskDocument.Claim.{}
use playbook_harness.TaskDocument.Gates.{open_gates}
use playbook_harness.TaskDocument.Neutral.{}
use playbook_harness.TaskDocument.Assemble.{}
use playbook_harness.TaskDocument.GateLine.{}

-- The gates with the first open one checked.
unfoldable pub check_first : List TaskGate → List TaskGate
check_first [] = []
check_first (g ∷ gs) =
    let rest = check_first gs in if g.checked then g ∷ rest else record g { checked = true } ∷ gs

-- Where the first open gate stands, and what a checked box on its line makes of the gates.
pub record FirstOpen (j : ℕ) (ls : List Text) (ms : List Mark) (g : TaskGate) : Type 0 where
  pub index : ℕ
  pub line : Text
  pub box : ℕ
  pub place : g.line ≡ j + index
  pub holds : get_elem? ls index ≡ some line
  pub matched : gate_match line ≡ some (box, g.text)
  pub unchecked : is_checked_mark box ≡ false
  pub closed :
      (line' : Text)
      → gate_match line' ≡ some (b'x', g.text)
      → gates_from j (set ls index line') ms ≡ check_first (gates_from j ls ms)

-- The line holds no open gate.
abbrev Closed : Text → Mark → Type 0
Closed x m =
    (m.semantic ≡ false)
    ⊎ (gate_match x ≡ none)
    ⊎ ((b : ℕ × Text) × (gate_match x ≡ some b) × (is_checked_mark b.0 ≡ true))

FirstOpen-suc :
    (j : ℕ) (x : Text) (ls : List Text) (m : Mark) (ms : List Mark) (g : TaskGate)
    → FirstOpen (j + 1) ls ms g
    → Closed x m
    → FirstOpen j (x ∷ ls) (m ∷ ms) g
unfolding gates_from check_first
FirstOpen-suc j x ls m ms g f e = record {
  index = suc f.index;
  line = f.line;
  box = f.box;
  place = omega (arith, f.place);
  holds = f.holds;
  matched = f.matched;
  unchecked = f.unchecked;
  closed = λ line' h. ground (arith, f.closed line' h);
}

FirstOpen-zero :
    (j : ℕ) (x : Text) (ls : List Text) (m : Mark) (ms : List Mark) (g : TaskGate) (b : ℕ × Text)
    → m.semantic ≡ true
    → gate_match x ≡ some b
    → is_checked_mark b.0 ≡ false
    → g ≡ record { line = j; checked = false; text = b.1 }
    → FirstOpen j (x ∷ ls) (m ∷ ms) g
unfolding gates_from check_first
FirstOpen-zero j x ls m ms g b sem e u w = record {
  index = 0;
  line = x;
  box = b.0;
  place = ground arith;
  holds = refl;
  matched = ground arith;
  unchecked = u;
  closed = λ line' h. ground arith;
}

pub open_gates-FirstOpen :
    (j : ℕ) (ls : List Text) (ms : List Mark) {g : TaskGate} {gs : List TaskGate}
    → open_gates (gates_from j ls ms) ≡ g ∷ gs
    → FirstOpen j ls ms g
unfolding gates_from open_gates
open_gates-FirstOpen j [] ms h = cc
open_gates-FirstOpen j (x ∷ ls) [] h = cc
open_gates-FirstOpen j (x ∷ ls) (m ∷ ms) {g} {gs} h = elim (Bool-cases m.semantic) [
  | inr hidden ↦
      FirstOpen-suc j x ls m ms g
        (open_gates-FirstOpen (j + 1) ls ms {g = g} {gs = gs} (ground arith)) (inl hidden)
  | inl sem ↦ elim (Option-cases (gate_match x)) [
    | inl e ↦
        FirstOpen-suc j x ls m ms g
          (open_gates-FirstOpen (j + 1) ls ms {g = g} {gs = gs} (ground arith)) (inr (inl e))
    | inr (b, e) ↦ elim (Bool-cases (is_checked_mark b.0)) [
      | inl c ↦
          FirstOpen-suc j x ls m ms g
            (open_gates-FirstOpen (j + 1) ls ms {g = g} {gs = gs} (ground arith))
            (inr (inr (b, e, c)))
      | inr u ↦ FirstOpen-zero j x ls m ms g b sem e u (ground arith)
    ]
  ]
]

-- `check_first` closes one gate: the next open gate becomes the first one.
pub open_gates-check_first :
    (gs : List TaskGate) {g : TaskGate} {rest : List TaskGate}
    → open_gates gs ≡ g ∷ rest
    → (open_gates (check_first gs) ≡ rest)
      × (count_checked (check_first gs) ≡ count_checked gs + 1)
      × (length (check_first gs) ≡ length gs)
unfolding open_gates check_first count_checked
open_gates-check_first [] h = cc
open_gates-check_first (g ∷ gs) {g = f} {rest = rest} h =
    ground (arith, open_gates-check_first gs {g = f} {rest = rest})

pub set-SameLines :
    (ls : List Text) (i : ℕ) (l l' : Text)
    → get_elem? ls i ≡ some l
    → Same l l'
    → SameLines ls (set ls i l')
set-SameLines [] i l l' g h = tt
set-SameLines (x ∷ ls) zero l l' g h =
    (subst (λ u. Same u l') (let e : l ≡ x = cc in e) h, SameLines-refl ls)
set-SameLines (x ∷ ls) (suc i) l l' g h = (Same-refl x, set-SameLines ls i l l' g h)

pub length-set : (ls : List Text) (i : ℕ) (l' : Text) → length (set ls i l') ≡ length ls
length-set [] i l' = refl
length-set (x ∷ ls) zero l' = refl
length-set (x ∷ ls) (suc i) l' = ap suc (length-set ls i l')

pub get_or-holds :
    (ls : List Text) (i : ℕ) {l : Text} → get_elem? ls i ≡ some l → get_or ls i [] ≡ l
get_or-holds [] i h = cc
get_or-holds (x ∷ ls) zero h = cc
get_or-holds (x ∷ ls) (suc i) h = get_or-holds ls i h
