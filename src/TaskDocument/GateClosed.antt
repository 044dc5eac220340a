-- ===== src/TaskDocument/GateClosed.antt =====
-- The text that `complete_next_gate` writes, parsed again.
use playbook_harness.Base.{
  ℕ, zero, suc, ◌+◌, ◌≡◌, ◌≢◌, refl, ap, sym, ◌∙◌, subst, false, Option, none, some, List, ◌∷◌,
  arith, get_elem?, set, ok, err, some-eq, [],
}
use playbook_harness.Text.{Text, is_blank_line, strip, rstrip, lower, lower_char, text_eq, is_space}
use playbook_harness.Text.Lines.{splitlines, join}
use playbook_harness.Text.Resplit.{SameLines, splitlines-join_same}
use playbook_harness.Identity.{SessionKey}
use playbook_harness.TaskDocument.Grammar.{session_match, skip_blanks, monitor_board_marker}
use playbook_harness.TaskDocument.Scan.{State, Mark, initial, scan, scan_end}
use playbook_harness.TaskDocument.Document.{
  Section, TaskDocument, TaskGate, Status, canonical_status, unsupported_status, status_alias,
  first_ending, parse, gates, is_monitor_board, has_marker, parse_sessions, section_values,
  progress,
}
use playbook_harness.TaskDocument.Claim.{owned_by}
use playbook_harness.TaskDocument.Gates.{open_gates, close_box, close_line, complete_next_gate}
use playbook_harness.TaskDocument.Neutral.{IsNeutral, scan-set}
use playbook_harness.TaskDocument.Assemble.{
  Assembled, parse-Assembled, Assembled-parse, first_value-set, values-set_sessions,
}
use playbook_harness.TaskDocument.GateLine.{
  OpenLine, gate_match-OpenLine, gate_match-close_box, session_match-open, dash-IsNeutral,
  dash-is_blank_line, Same-close_box, lstrip-skip_blanks, skip_blanks-close_box,
}
use playbook_harness.TaskDocument.NextGate.{
  FirstOpen, open_gates-FirstOpen, check_first, open_gates-check_first, set-SameLines, length-set,
  get_or-holds,
}

-- A line that begins with a dash is no status.
dash-no_status : (l t : Text) (st : Status) → skip_blanks l ≡ b'-' ∷ t → canonical_status l ≢ ok st
unfolding canonical_status status_alias strip rstrip lower lower_char text_eq is_space
dash-no_status l t st h e =
    let f : err unsupported_status ≡ ok st = rw (lstrip-skip_blanks l h refl) at e in cc

-- Nor is it the mark of a monitor board.
dash-no_marker :
    (l t : Text) → skip_blanks l ≡ b'-' ∷ t → text_eq (strip l) monitor_board_marker ≡ false
unfolding strip rstrip text_eq is_space
dash-no_marker l t h = rw (lstrip-skip_blanks l h refl) (ground arith)

has_marker-set :
    (l l' : Text)
    → text_eq (strip l) monitor_board_marker ≡ false
    → text_eq (strip l') monitor_board_marker ≡ false
    → (ls : List Text) (ms : List Mark) (i : ℕ) → get_elem? ls i ≡ some l
    → has_marker (set ls i l') ms ≡ has_marker ls ms
unfolding has_marker
has_marker-set l l' n n' [] ms i g = cc
has_marker-set l l' n n' (x ∷ ls) [] zero g = refl
has_marker-set l l' n n' (x ∷ ls) [] (suc i) g = refl
has_marker-set l l' n n' (x ∷ ls) (m ∷ ms) zero g =
    let e : text_eq (strip x) monitor_board_marker ≡ false = rw (some-eq g) n in rw (n', e) refl
has_marker-set l l' n n' (x ∷ ls) (m ∷ ms) (suc i) g = rw (has_marker-set l l' n n' ls ms i g) refl

sessions-set :
    (l l' : Text) (o : Option Section) (ls : List Text) (ms : List Mark) (i : ℕ)
    {keys : List SessionKey}
    → is_blank_line l ≡ is_blank_line l'
    → get_elem? ls i ≡ some l
    → session_match l ≡ none
    → parse_sessions (section_values o ls ms) ≡ ok keys
    → parse_sessions (section_values o (set ls i l') ms) ≡ ok keys
sessions-set l l' none ls ms i b g n h = h
sessions-set l l' (some s) ls ms i {keys} b g n h =
    ap parse_sessions (values-set_sessions l l' b s 0 ls ms i {keys = keys} g n h) ∙ h

-- A line that is neither a status nor a session entry is replaced by one that scans alike.
module _ (l l' : Text) (neutral : IsNeutral l) (neutral' : IsNeutral l')
    (blank : is_blank_line l ≡ is_blank_line l') (no_session : session_match l ≡ none)
    (no_status : (st : Status) → canonical_status l ≢ ok st) where
  Assembled-set :
      (ls : List Text) (i : ℕ) (d : TaskDocument)
      → get_elem? ls i ≡ some l
      → Assembled ls (scan initial ls) d
      → Assembled
          (set ls i l')
          (scan initial (set ls i l'))
          (record d { lines = set ls i l'; newline = first_ending (set ls i l') })
  Assembled-set ls i d g a =
      let e = scan-set l l' neutral neutral' initial ls i g in
      subst
        (λ ms.
          Assembled (set ls i l') ms
            (record d { lines = set ls i l'; newline = first_ending (set ls i l') }))
        (sym e.0)
        (record {
          lines_eq = refl;
          marks_eq = a.marks_eq;
          newline_eq = refl;
          status_found = rw (length-set ls i l') a.status_found;
          token = a.token;
          token_first =
              first_value-set l l' blank d.status_section 0 ls (scan initial ls) i g a.token_first
                (λ p. no_status d.status (rw p at a.token_status));
          token_status = a.token_status;
          sessions_found = rw (length-set ls i l') a.sessions_found;
          sessions_parsed =
              sessions-set l l' d.sessions_section ls (scan initial ls) i blank g no_session
                a.sessions_parsed;
        })

-- What closing the gate on line `k` of document `d` leaves as `text`.
pub record GateClosed (d : TaskDocument) (k : ℕ) (text : Text) : Type 0 where
  pub after : TaskDocument
  pub parsed : parse text ≡ ok after
  pub gates_after : gates after ≡ check_first (gates d)
  pub status_kept : after.status ≡ d.status
  pub sessions_kept : after.sessions ≡ d.sessions
  pub mode_kept : is_monitor_board after ≡ is_monitor_board d
  pub other_lines : after.lines ≡ close_line d k

abbrev with_line : TaskDocument → ℕ → Text → TaskDocument
with_line d k l' = record d { lines = set d.lines k l'; newline = first_ending (set d.lines k l') }

OpenLine-reparsed :
    (original : Text) (d : TaskDocument) (k : ℕ) (l text : Text)
    → parse original ≡ ok d
    → get_elem? d.lines k ≡ some l
    → OpenLine l text
    → parse (join (set d.lines k (close_box l))) ≡ ok (with_line d k (close_box l))
OpenLine-reparsed original d k l text p at w =
    let (o, a) = parse-Assembled original p in
    let a' : Assembled d.lines (scan initial d.lines) d =
      subst (λ ls. Assembled ls (scan initial ls) d) (sym a.lines_eq) a in
    let dash' = skip_blanks-close_box l w.dash refl in
    let neutral = dash-IsNeutral l _ w.dash in
    let neutral' = dash-IsNeutral (close_box l) _ dash' in
    let e = scan-set l (close_box l) neutral neutral' initial d.lines k at in
    let b : is_blank_line l ≡ is_blank_line (close_box l) =
      dash-is_blank_line l _ w.dash ∙ sym (dash-is_blank_line (close_box l) _ dash') in
    let same : SameLines (splitlines original) (set d.lines k (close_box l)) =
      subst (λ ls. SameLines ls (set d.lines k (close_box l))) a.lines_eq
        (set-SameLines d.lines k l (close_box l) at (Same-close_box l)) in
    Assembled-parse (join (set d.lines k (close_box l))) (set d.lines k (close_box l))
      (splitlines-join_same original (set d.lines k (close_box l)) same)
      (ap (λ (s : State). s.opaque) e.1
        ∙ subst (λ ls. (scan_end initial ls).opaque ≡ false) (sym a.lines_eq) o)
      (Assembled-set l (close_box l) neutral neutral' b (session_match-open l text w)
        (λ st. dash-no_status l _ st w.dash) d.lines k d at a')

open_gate-closed :
    (original : Text) (d : TaskDocument) (g : TaskGate) (rest : List TaskGate)
    → parse original ≡ ok d
    → open_gates (gates d) ≡ g ∷ rest
    → GateClosed d g.line (join (close_line d g.line))
open_gate-closed original d g rest p h =
    let f : FirstOpen 0 d.lines d.marks g = open_gates-FirstOpen 0 d.lines d.marks {gs = rest} h in
    let w : OpenLine f.line g.text = gate_match-OpenLine f.line f.matched f.unchecked in
    let i : f.index ≡ g.line = omega (arith, f.place) in
    let c : close_line d f.index ≡ set d.lines f.index (close_box f.line) =
      ap (λ x. set d.lines f.index (close_box x)) (get_or-holds d.lines f.index f.holds) in
    subst (λ k. GateClosed d k (join (close_line d k))) i
      (record {
        after = with_line d f.index (close_box f.line);
        parsed =
            subst (λ ls. parse (join ls) ≡ ok (with_line d f.index (close_box f.line))) (sym c)
              (OpenLine-reparsed original d f.index f.line g.text p f.holds w);
        gates_after = f.closed (close_box f.line) (gate_match-close_box f.line g.text w);
        status_kept = refl;
        sessions_kept = refl;
        mode_kept =
            has_marker-set f.line (close_box f.line) (dash-no_marker f.line _ w.dash)
              (dash-no_marker (close_box f.line) _ (skip_blanks-close_box f.line w.dash refl))
              d.lines d.marks f.index f.holds;
        other_lines = sym c;
      })

-- The owner of a task with an open gate gets the text of the first one, and the task that is
-- written has that gate checked, with its status, its sessions, its mode, its other gates and all
-- its other lines as they were.
pub complete_next_gate-closes_first :
    (original : Text) (claimant : SessionKey) (d : TaskDocument) (g : TaskGate)
    (rest : List TaskGate)
    → parse original ≡ ok d
    → owned_by d claimant ≡ ok tt
    → open_gates (gates d) ≡ g ∷ rest
    → (upcoming : List Text) × ((complete_next_gate original claimant).0 ≡ ok (g.text, upcoming))
      × GateClosed d g.line (complete_next_gate original claimant).1
unfolding complete_next_gate
complete_next_gate-closes_first original claimant d g rest p own h =
    rw (p, own, h) (_, refl, open_gate-closed original d g rest p h)

-- So the next open gate is the one behind it, one more gate is checked, and none is lost.
pub complete_next_gate-progress :
    (original : Text) (claimant : SessionKey) (d : TaskDocument) (g : TaskGate)
    (rest : List TaskGate)
    → parse original ≡ ok d
    → owned_by d claimant ≡ ok tt
    → open_gates (gates d) ≡ g ∷ rest
    → (after : TaskDocument) × (parse (complete_next_gate original claimant).1 ≡ ok after)
      × (open_gates (gates after) ≡ rest)
      × (progress after ≡ ((progress d).0 + 1, (progress d).1))
complete_next_gate-progress original claimant d g rest p own h =
    let (up, r, c) = complete_next_gate-closes_first original claimant d g rest p own h in
    let k = open_gates-check_first (gates d) {rest = rest} h in
    (c.after, c.parsed, rw c.gates_after k.0, rw c.gates_after (cc (k.1, k.2)))
