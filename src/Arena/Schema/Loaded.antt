-- ===== src/Arena/Schema/Loaded.antt =====
-- A script that is loaded is one that the controller can rely on.
use playbook_harness.Base.{
  ℕ, ◌≡◌, ◌≢◌, refl, subst, ap, ◌≤◌, Bool, true, false, not, Option, none, some, List, [], ◌∷◌,
  arith, ok, >>=-eq-ok, ok-eq, All, get_elem?,
}
use playbook_harness.Text.{Text, codes, text_eq, text_mem, text_eq_iff}
use playbook_harness.Json.{Json, Items, no_items, item, Members, object}
use playbook_harness.Arena.Controller.{ScriptEvent, Trigger, start, after_ack, after_worker_exit}
use playbook_harness.Arena.Controller.Accepted.{Distinct, Begins, IsScript}
use playbook_harness.Arena.Schema.{
  SchemaError, duplicate_id, bad_pattern, require, object_of, field, check_schema, text_of,
  text_max, identifier, integer, strings, hashed,
}
use playbook_harness.Arena.Schema.Script.{
  LoadedEvent, trigger_named, action_named, predecessor, is_start, check_place, adaptations,
  event_fields, load_event, load_events, ScriptDefinition, event_items, load_script,
}

abbrev pub script_of : List LoadedEvent → List ScriptEvent
script_of [] = []
script_of (e ∷ es) = e.event ∷ script_of es

-- What one event was checked for.
pub record IsChecked (seen : List Text) (last : Option Text) (e : LoadedEvent) : Type 0 where
  pub unseen : text_mem e.event.id seen ≡ false
  pub placed : check_place last e.event.deliver_when e.after ≡ ok tt
  pub timeout : (1 ≤ e.event.timeout_seconds) × (e.event.timeout_seconds ≤ 86400)

integer-bounds : (lo hi : ℕ) (j : Json) {n : ℕ} → integer lo hi j ≡ ok n → (lo ≤ n) × (n ≤ hi)
integer-bounds lo hi j h = ground arith

require-not : (b : Bool) (e : SchemaError) {u : Unit {0}} → require (not b) e ≡ ok u → b ≡ false
require-not true e h = cc
require-not false e h = refl

load_event-IsChecked :
    (compiles : Text → Bool) (seen : List Text) (last : Option Text) (j : Json) {e : LoadedEvent}
    → load_event compiles seen last j ≡ ok e
    → IsChecked seen last e
unfolding load_event
load_event-IsChecked compiles seen last j {e} h =
    let (ms, p1, h1) = >>=-eq-ok (object_of event_fields j) _ h in
    let (id, p2, h2) = >>=-eq-ok (identifier (field (codes "id") ms)) _ h1 in
    let (u3, p3, h3) = >>=-eq-ok (require (not (text_mem id seen)) duplicate_id) _ h2 in
    let (named, p4, h4) = >>=-eq-ok (hashed (field (codes "deliver_when") ms)) _ h3 in
    let (trigger, p5, h5) = >>=-eq-ok (trigger_named named) _ h4 in
    let (after, p6, h6) = >>=-eq-ok (predecessor (field (codes "after") ms)) _ h5 in
    let (u7, p7, h7) = >>=-eq-ok (check_place last trigger after) _ h6 in
    let (pattern', p8, h8) = >>=-eq-ok (text_of 512 (field (codes "acknowledge") ms)) _ h7 in
    let (u9, p9, h9) = >>=-eq-ok (require (compiles pattern') bad_pattern) _ h8 in
    let (ads, p10, h10) = >>=-eq-ok (adaptations (field (codes "allowed_adaptations") ms)) _ h9 in
    let (na, p11, h11) = >>=-eq-ok (hashed (field (codes "on_timeout") ms)) _ h10 in
    let (act, p12, h12) = >>=-eq-ok (action_named na) _ h11 in
    let (msg, p13, h13) = >>=-eq-ok (text_of text_max (field (codes "message") ms)) _ h12 in
    let (t, p14, h14) = >>=-eq-ok (integer 1 86400 (field (codes "timeout_seconds") ms)) _ h13 in
    let (kf, p15, h15) = >>=-eq-ok (strings (field (codes "known_facts") ms)) _ h14 in
    let (fd, p16, h16) = >>=-eq-ok (strings (field (codes "forbidden_disclosures") ms)) _ h15 in
    let k = ok-eq _ refl h16 in
    let n = require-not (text_mem id seen) duplicate_id p3 in
    subst (IsChecked seen last) k (record {
      unseen = n;
      placed = p7;
      timeout = integer-bounds 1 86400 (field (codes "timeout_seconds") ms) p14;
    })

text_mem-apart :
    (id x : Text) (seen : List Text)
    → text_mem x (id ∷ seen) ≡ false
    → (text_eq id x ≡ false) × (text_mem x seen ≡ false)
unfolding text_mem
text_mem-apart id x seen h = ground (arith, text_eq_iff id x, text_eq_iff x id)

-- The events of a script, behind those that were seen.
pub record IsLoaded (seen : List Text) (es : List LoadedEvent) : Type 0 where
  pub unseen : All (λ e. text_mem e.id seen ≡ false) (script_of es)
  pub distinct : Distinct (script_of es)
  pub timeouts : All (λ e. 1 ≤ e.timeout_seconds) (script_of es)

unseen-apart :
    (id : Text) (seen : List Text) (es : List ScriptEvent)
    → All (λ e. text_mem e.id (id ∷ seen) ≡ false) es
    → All (λ e. text_eq id e.id ≡ false) es × All (λ e. text_mem e.id seen ≡ false) es
unseen-apart id seen [] a = (tt, tt)
unseen-apart id seen (e ∷ es) a =
    let k = text_mem-apart id e.id seen a.0 in
    let r = unseen-apart id seen es a.1 in ((k.0, r.0), (k.1, r.1))

load_events-IsLoaded :
    (compiles : Text → Bool) (seen : List Text) (last : Option Text) (js : Items)
    {es : List LoadedEvent}
    → load_events compiles seen last js ≡ ok es
    → IsLoaded seen es
unfolding load_events
load_events-IsLoaded compiles seen last no_items {es} h =
    let k : [] ≡ es = ok-eq _ refl h in
    subst (IsLoaded seen) k (record { unseen = tt; distinct = tt; timeouts = tt })
load_events-IsLoaded compiles seen last (item j js) {es} h =
    let (e, p, h1) = >>=-eq-ok (load_event compiles seen last j) _ h in
    let (rest, q, h2) =
      >>=-eq-ok (load_events compiles (e.event.id ∷ seen) (some e.event.id) js) _ h1 in
    let k : e ∷ rest ≡ es = ok-eq _ refl h2 in
    let c = load_event-IsChecked compiles seen last j {e = e} p in
    let r = load_events-IsLoaded compiles (e.event.id ∷ seen) (some e.event.id) js {es = rest} q in
    let a = unseen-apart e.event.id seen (script_of rest) r.unseen in
    subst (IsLoaded seen) k (record {
      unseen = (c.unseen, a.1);
      distinct = (a.0, r.distinct);
      timeouts = (c.timeout.0, r.timeouts);
    })

-- The first event starts and names no other; a later one does not start, and names the one before it.
abbrev pub Placed : Option Text → Trigger → Option Text → Type 0
Placed none trigger after = (trigger ≡ start) × (after ≡ none)
Placed (some last) trigger after = (trigger ≢ start) × (after ≡ some last)

abbrev pub Chained : Option Text → List LoadedEvent → Type 0
Chained last [] = Unit
Chained last (e ∷ es) = Placed last e.event.deliver_when e.after × Chained (some e.event.id) es

start-is_start : (t : Trigger) → is_start t ≡ true → t ≡ start
start-is_start start h = refl
start-is_start after_ack h = cc
start-is_start after_worker_exit h = cc

check_place-Placed :
    (last : Option Text) (trigger : Trigger) (after : Option Text)
    → check_place last trigger after ≡ ok tt
    → Placed last trigger after
check_place-Placed none trigger none h = (start-is_start trigger (ground arith), refl)
check_place-Placed none trigger (some a) h = ground arith
check_place-Placed (some last) start after h = ground arith
check_place-Placed (some last) after_ack none h = cc
check_place-Placed (some last) after_worker_exit none h = cc
check_place-Placed (some last) after_ack (some a) h = ground (arith, text_eq_iff a last)
check_place-Placed (some last) after_worker_exit (some a) h = ground (arith, text_eq_iff a last)

load_events-Chained :
    (compiles : Text → Bool) (seen : List Text) (last : Option Text) (js : Items)
    {es : List LoadedEvent}
    → load_events compiles seen last js ≡ ok es
    → Chained last es
unfolding load_events
load_events-Chained compiles seen last no_items {es} h =
    let k : [] ≡ es = ok-eq _ refl h in subst (Chained last) k tt
load_events-Chained compiles seen last (item j js) {es} h =
    let (e, p, h1) = >>=-eq-ok (load_event compiles seen last j) _ h in
    let (rest, q, h2) =
      >>=-eq-ok (load_events compiles (e.event.id ∷ seen) (some e.event.id) js) _ h1 in
    let k : e ∷ rest ≡ es = ok-eq _ refl h2 in
    subst (Chained last) k (
      check_place-Placed last e.event.deliver_when e.after
          (load_event-IsChecked compiles seen last j {e = e} p).placed,
      load_events-Chained compiles (e.event.id ∷ seen) (some e.event.id) js {es = rest} q,
    )

Chained-Begins : (es : List LoadedEvent) → Chained none es → Begins (get_elem? (script_of es) 0)
Chained-Begins [] c = tt
Chained-Begins (e ∷ es) c = rw c.0.0 refl

-- A script that `load_script` accepts has events with different ids, each with a time limit, of which only
-- the first one starts and each other follows the one before it: the controller's demands on a script.
pub load_script-IsScript :
    (compiles : Text → Bool) (raw : Members) (s : ScriptDefinition)
    → load_script compiles raw ≡ ok s
    → IsScript (script_of s.events) × Chained none s.events
unfolding load_script
load_script-IsScript compiles raw s h =
    let (ms, p1, h1) =
      >>=-eq-ok (object_of (codes "schema" ∷ codes "id" ∷ codes "events" ∷ []) (object raw)) _ h in
    let (u, p2, h2) = >>=-eq-ok (check_schema (field (codes "schema") ms)) _ h1 in
    let (id, p3, h3) = >>=-eq-ok (identifier (field (codes "id") ms)) _ h2 in
    let (items, p4, h4) = >>=-eq-ok (event_items (field (codes "events") ms)) _ h3 in
    let (es, p5, h5) = >>=-eq-ok (load_events compiles [] none items) _ h4 in
    let k : es ≡ s.events = ap (λ (d : ScriptDefinition). d.events) (ok-eq _ refl h5) in
    let l = load_events-IsLoaded compiles [] none items {es = es} p5 in
    let c = load_events-Chained compiles [] none items {es = es} p5 in
    subst (λ x. IsScript (script_of x) × Chained none x) k
      (record { distinct = l.distinct; timeouts = l.timeouts; first = Chained-Begins es c }, c)
