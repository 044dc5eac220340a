-- ===== src/Arena/Schema/Script.antt =====
-- `load_script`: the events of a script.
use playbook_harness.Base.{
  Bool, true, false, not, ◌&&◌, Option, none, some, List, [], ◌∷◌, if◌then◌else◌, Result, ok, err,
  ◌>>=◌,
}
use playbook_harness.Text.{Text, codes, text_eq, text_mem}
use playbook_harness.Json.{
  Json, null, string, array, object, Items, no_items, item, Members, no_members, member,
}
use playbook_harness.Arena.Controller.{
  Trigger, start, after_ack, after_worker_exit, TimeoutAction, on_fail, on_skip, on_stop,
  ScriptEvent,
}
use playbook_harness.Arena.Schema.{
  SchemaError, duplicate_id, bad_trigger, bad_first, bad_follower, bad_pattern, bad_adaptations,
  bad_timeout_action, no_events, require, object_of, field, check_schema, text_of, text_max,
  identifier, integer, strings, hashed,
}

-- `ScriptEvent`, with the members that the controller does not read.
pub record LoadedEvent : Type 0 where
  pub event : ScriptEvent
  pub after : Option Text
  pub known_facts : List Text
  pub allowed_adaptations : List (Text × Text)
  pub forbidden_disclosures : List Text

abbrev pub trigger_named : Option Text → Result SchemaError Trigger
trigger_named none = err bad_trigger
trigger_named (some t) =
    if text_eq t (codes "start")
    then ok start
    else if text_eq t (codes "after_ack")
    then ok after_ack
    else if text_eq t (codes "after_worker_exit")
    then ok after_worker_exit
    else err bad_trigger

abbrev pub action_named : Option Text → Result SchemaError TimeoutAction
action_named none = err bad_timeout_action
action_named (some t) =
    if text_eq t (codes "fail")
    then ok on_fail
    else if text_eq t (codes "skip")
    then ok on_skip
    else if text_eq t (codes "stop")
    then ok on_stop
    else err bad_timeout_action

abbrev pub predecessor : Json → Result SchemaError (Option Text)
predecessor null = ok none
predecessor j = do t ← identifier j; ok (some t)

abbrev pub is_start : Trigger → Bool
is_start start = true
is_start _ = false

abbrev pub is_text : Option Text → Text → Bool
is_text none t = false
is_text (some s) t = text_eq s t

abbrev pub is_none {ℓ} : {A : Type ℓ} → Option A → Bool
is_none none = true
is_none (some a) = false

-- The first event starts; each other follows the one before it.
abbrev pub check_place : Option Text → Trigger → Option Text → Result SchemaError (Unit {0})
check_place none trigger after = require (is_start trigger && is_none after) bad_first
check_place (some last) trigger after =
    require (is_text after last && not (is_start trigger)) bad_follower

unfoldable pub adaptations_of : Members → Result SchemaError (List (Text × Text))
adaptations_of no_members = ok []
adaptations_of (member key value rest) = do
  k ← identifier (string key)
  t ← text_of text_max value
  others ← adaptations_of rest
  ok ((k, t) ∷ others)

abbrev pub adaptations : Json → Result SchemaError (List (Text × Text))
adaptations (object ms) = adaptations_of ms
adaptations _ = err bad_adaptations

abbrev pub event_fields : List Text
event_fields =
    codes "id"
    ∷ codes "message"
    ∷ codes "deliver_when"
    ∷ codes "after"
    ∷ codes "acknowledge"
    ∷ codes "timeout_seconds"
    ∷ codes "on_timeout"
    ∷ codes "known_facts"
    ∷ codes "allowed_adaptations"
    ∷ codes "forbidden_disclosures"
    ∷ []

-- One turn of the loop, behind the ids seen so far and the last of them.
unfoldable pub load_event :
    (Text → Bool) → List Text → Option Text → Json → Result SchemaError LoadedEvent
load_event compiles seen last j = do
  event ← object_of event_fields j
  id ← identifier (field (codes "id") event)
  a ← require (not (text_mem id seen)) duplicate_id
  named ← hashed (field (codes "deliver_when") event)
  trigger ← trigger_named named
  after ← predecessor (field (codes "after") event)
  b ← check_place last trigger after
  pattern' ← text_of 512 (field (codes "acknowledge") event)
  c ← require (compiles pattern') bad_pattern
  adapted ← adaptations (field (codes "allowed_adaptations") event)
  named_action ← hashed (field (codes "on_timeout") event)
  action ← action_named named_action
  message ← text_of text_max (field (codes "message") event)
  timeout ← integer 1 86400 (field (codes "timeout_seconds") event)
  facts ← strings (field (codes "known_facts") event)
  forbidden ← strings (field (codes "forbidden_disclosures") event)
  ok (record {
    event = record {
      id = id;
      message = message;
      deliver_when = trigger;
      acknowledge = pattern';
      timeout_seconds = timeout;
      on_timeout = action;
    };
    after = after;
    known_facts = facts;
    allowed_adaptations = adapted;
    forbidden_disclosures = forbidden;
  })

unfoldable pub load_events :
    (Text → Bool) → List Text → Option Text → Items → Result SchemaError (List LoadedEvent)
load_events compiles seen last no_items = ok []
load_events compiles seen last (item j js) = do
  e ← load_event compiles seen last j
  es ← load_events compiles (e.event.id ∷ seen) (some e.event.id) js
  ok (e ∷ es)

-- `ScriptDefinition`, without its path and its hash.
pub record ScriptDefinition : Type 0 where
  pub id : Text
  pub events : List LoadedEvent

abbrev pub event_items : Json → Result SchemaError Items
event_items (array (item j js)) = ok (item j js)
event_items _ = err no_events

-- `load_script`, on the object of the file.
unfoldable pub load_script : (Text → Bool) → Members → Result SchemaError ScriptDefinition
load_script compiles raw = do
  value ← object_of (codes "schema" ∷ codes "id" ∷ codes "events" ∷ []) (object raw)
  a ← check_schema (field (codes "schema") value)
  id ← identifier (field (codes "id") value)
  items ← event_items (field (codes "events") value)
  events ← load_events compiles [] none items
  ok (record { id = id; events = events })
