-- ===== src/TaskDocument/Assemble.antt =====
-- `parse` taken apart: what a parsed document holds, and what suffices for a parse.
use playbook_harness.Base.{
  ℕ, zero, suc, ◌+◌, ◌≤◌, ◌≡◌, ◌≢◌, refl, ap, Bool, true, false, not, ◌&&◌, Option, none, some,
  List, [], ◌∷◌, arith, if◌then◌else◌, Bool-cases, inl, inr, get_elem?, set, length, Result, ok,
  err, ltb,
}
use playbook_harness.Text.{Text, codes, is_blank_line}
use playbook_harness.Text.Lines.{splitlines}
use playbook_harness.Identity.{SessionKey}
use playbook_harness.TaskDocument.Grammar.{session_match}
use playbook_harness.TaskDocument.Scan.{Mark, initial, scan, scan_end, headings}
use playbook_harness.TaskDocument.Document.{
  DocumentError, Section, TaskDocument, canonical_status, sections_named, one_section, values,
  parse_sessions, section_values, first_value, first_ending, assemble, parse_lines, parse,
  require_status,
}

abbrev pub named : Text → List Text → List Mark → Result DocumentError (Option Section)
named name ls ms = one_section name (sections_named name (length ls) (headings 0 ms))

-- What `assemble` has found.
pub record Assembled (ls : List Text) (ms : List Mark) (d : TaskDocument) : Type 0 where
  pub lines_eq : d.lines ≡ ls
  pub marks_eq : d.marks ≡ ms
  pub newline_eq : d.newline ≡ first_ending ls
  pub status_found : named (codes "Status") ls ms ≡ ok (some d.status_section)
  pub token : Text
  pub token_first : first_value (values d.status_section 0 ls ms) ≡ ok (d.status_value_line, token)
  pub token_status : canonical_status token ≡ ok d.status
  pub sessions_found : named (codes "Sessions") ls ms ≡ ok d.sessions_section
  pub sessions_parsed : parse_sessions (section_values d.sessions_section ls ms) ≡ ok d.sessions

abbrev token_of : Result DocumentError (ℕ × Text) → Text
token_of (err e) = []
token_of (ok v) = v.1

require_status-ok : (o : Option Section) {s : Section} → require_status o ≡ ok s → o ≡ some s
require_status-ok none h = cc
require_status-ok (some t) h = cc

pub assemble-Assembled :
    (ls : List Text) (ms : List Mark) {d : TaskDocument} → assemble ls ms ≡ ok d → Assembled ls ms d
unfolding assemble
assemble-Assembled ls ms {d} h = record {
  lines_eq = ground arith;
  marks_eq = ground arith;
  newline_eq = ground arith;
  status_found = ground arith;
  token = token_of (first_value (values d.status_section 0 ls ms));
  token_first = ground arith;
  token_status = ground arith;
  sessions_found = ground arith;
  sessions_parsed = ground arith;
}

pub Assembled-assemble :
    (ls : List Text) (ms : List Mark) {d : TaskDocument} → Assembled ls ms d → assemble ls ms ≡ ok d
unfolding assemble
Assembled-assemble ls ms {d} a = ground arith

-- A parse is an assembly of the lines and their marks, with no captured chat left open.
pub parse-Assembled :
    (text : Text) {d : TaskDocument}
    → parse text ≡ ok d
    → ((scan_end initial (splitlines text)).opaque ≡ false)
      × Assembled (splitlines text) (scan initial (splitlines text)) d
unfolding parse parse_lines
parse-Assembled text {d} h =
    ground (arith, assemble-Assembled (splitlines text) (scan initial (splitlines text)) {d = d})

pub Assembled-parse :
    (text : Text) (ls : List Text) {d : TaskDocument}
    → splitlines text ≡ ls
    → (scan_end initial ls).opaque ≡ false
    → Assembled ls (scan initial ls) d
    → parse text ≡ ok d
unfolding parse parse_lines
Assembled-parse text ls {d} e o a = rw (e, o) (Assembled-assemble ls (scan initial ls) a)

parse_sessions-tail :
    (v : ℕ × Text) (vs : List (ℕ × Text)) {keys : List SessionKey}
    → parse_sessions (v ∷ vs) ≡ ok keys
    → (ks : List SessionKey) × (parse_sessions vs ≡ ok ks)
unfolding parse_sessions
parse_sessions-tail v vs h = ground arith

parse_sessions-skip :
    (c : Bool) (v : ℕ × Text) (vs : List (ℕ × Text)) {keys : List SessionKey}
    → parse_sessions (if c then v ∷ vs else vs) ≡ ok keys
    → (ks : List SessionKey) × (parse_sessions vs ≡ ok ks)
parse_sessions-skip true v vs h = parse_sessions-tail v vs h
parse_sessions-skip false v vs {keys} h = (keys, h)

-- The first value is a line of the text, semantic and not blank.
pub record ValueAt (j : ℕ) (ls : List Text) (ms : List Mark) (v : ℕ × Text) : Type 0 where
  pub index : ℕ
  pub place : v.0 ≡ j + index
  pub holds : get_elem? ls index ≡ some v.1
  pub mark : Mark
  pub marked : get_elem? ms index ≡ some mark
  pub semantic : mark.semantic ≡ true
  pub filled : is_blank_line v.1 ≡ false

ValueAt-suc :
    (j : ℕ) (x : Text) (ls : List Text) (m : Mark) (ms : List Mark) (v : ℕ × Text)
    → ValueAt (j + 1) ls ms v
    → ValueAt j (x ∷ ls) (m ∷ ms) v
ValueAt-suc j x ls m ms v a = record {
  index = suc a.index;
  place = omega (arith, a.place);
  holds = a.holds;
  mark = a.mark;
  marked = a.marked;
  semantic = a.semantic;
  filled = a.filled;
}

pub first_value-ValueAt :
    (s : Section) (j : ℕ) (ls : List Text) (ms : List Mark) {v : ℕ × Text}
    → first_value (values s j ls ms) ≡ ok v
    → ValueAt j ls ms v
unfolding values
first_value-ValueAt s j [] ms h = cc
first_value-ValueAt s j (x ∷ ls) [] h = cc
first_value-ValueAt s j (x ∷ ls) (m ∷ ms) {v} h =
    elim (Bool-cases (ltb s.heading j && ltb j s.end && m.semantic && not (is_blank_line x))) [
      | inl e ↦ record {
        index = 0;
        place = ground arith;
        holds = ground arith;
        mark = m;
        marked = refl;
        semantic = ground arith;
        filled = ground arith;
      }
      | inr e ↦ ValueAt-suc j x ls m ms v (first_value-ValueAt s (j + 1) ls ms (rw e at h))
    ]

-- The values of a section where line `i` is another line, blank exactly if it was.
module _ (l l' : Text) (b : is_blank_line l ≡ is_blank_line l') (s : Section) where
  -- The first value stays if it is another line.
  pub first_value-set :
      (j : ℕ) (ls : List Text) (ms : List Mark) (i : ℕ) {v : ℕ × Text}
      → get_elem? ls i ≡ some l
      → first_value (values s j ls ms) ≡ ok v
      → v.1 ≢ l
      → first_value (values s j (set ls i l') ms) ≡ ok v
  unfolding values
  first_value-set j [] ms i g h n = h
  first_value-set j (x ∷ ls) [] zero g h n = h
  first_value-set j (x ∷ ls) [] (suc i) g h n = h
  first_value-set j (x ∷ ls) (m ∷ ms) zero g h n = ground arith
  first_value-set j (x ∷ ls) (m ∷ ms) (suc i) {v} g h n =
      ground (arith, first_value-set (j + 1) ls ms i {v = v} g)

  first_value-ge :
      (j : ℕ) (ls : List Text) (ms : List Mark) {v : ℕ × Text}
      → first_value (values s j ls ms) ≡ ok v
      → j ≤ v.0
  first_value-ge j ls ms h = omega (arith, (first_value-ValueAt s j ls ms h).place)

  -- The first value becomes the new line if it is this one.
  pub first_value-set_self :
      (j : ℕ) (ls : List Text) (ms : List Mark) (i : ℕ)
      → get_elem? ls i ≡ some l
      → first_value (values s j ls ms) ≡ ok (j + i, l)
      → first_value (values s j (set ls i l') ms) ≡ ok (j + i, l')
  unfolding values
  first_value-set_self j [] ms i g h = cc
  first_value-set_self j (x ∷ ls) [] zero g h = cc
  first_value-set_self j (x ∷ ls) [] (suc i) g h = cc
  first_value-set_self j (x ∷ ls) (m ∷ ms) zero g h =
      ground (arith, first_value-ge (j + 1) ls ms {v = (j, l)})
  first_value-set_self j (x ∷ ls) (m ∷ ms) (suc i) g h =
      ground (arith, first_value-set_self (j + 1) ls ms i g)

  -- Nothing changes if the line is no session entry, in a section of sessions.
  pub values-set_sessions :
      (j : ℕ) (ls : List Text) (ms : List Mark) (i : ℕ) {keys : List SessionKey}
      → get_elem? ls i ≡ some l
      → session_match l ≡ none
      → parse_sessions (values s j ls ms) ≡ ok keys
      → values s j (set ls i l') ms ≡ values s j ls ms
  unfolding values parse_sessions
  values-set_sessions j [] ms i g n h = refl
  values-set_sessions j (x ∷ ls) [] zero g n h = refl
  values-set_sessions j (x ∷ ls) [] (suc i) g n h = refl
  values-set_sessions j (x ∷ ls) (m ∷ ms) zero g n h = ground arith
  values-set_sessions j (x ∷ ls) (m ∷ ms) (suc i) {keys} g n h =
      let c = ltb s.heading j && ltb j s.end && m.semantic && not (is_blank_line x) in
      let (ks, t) = parse_sessions-skip c (j, x) (values s (j + 1) ls ms) h in
      ap (λ vs. if c then (j, x) ∷ vs else vs)
        (values-set_sessions (j + 1) ls ms i {keys = ks} g n t)
