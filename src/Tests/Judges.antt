-- ===== src/Tests/Judges.antt =====
-- A script, an answer of a judge and three judgments, and instances of the theorems on them.
use playbook_harness.Identity.{all_id_chars, is_alnum}
use playbook_harness.Base.{◌++◌, ◌≡◌, refl, ◌≤◌, Bool, true, false, none, List, [], ◌∷◌, ok, err}
use playbook_harness.Text.{strip, is_blank_line, text_eq, text_mem, Text, codes}
use playbook_harness.Json.{
  get, Json, null, number, string, array, object, no_items, item, Members, no_members, member,
}
use playbook_harness.Arena.Controller.{start, on_fail, Entry, ControllerState, replay_controller}
use playbook_harness.Arena.Controller.Decide.{running}
use playbook_harness.Arena.Controller.Rounds.{Limits, Observation, control_round}
use playbook_harness.Arena.Controller.Once.{requests_of}
use playbook_harness.Arena.Controller.Run.{begun, round, killed, load_script-delivers_once}
use playbook_harness.Arena.Controller.Accepted.{IsScript}
use playbook_harness.Arena.Schema.{
  distinct_texts, texts_of, is_identifier, utf8_length, has_null, is_encodable, bounded_text,
  all_in, keys, unhashable,
}
use playbook_harness.Arena.Schema.Script.{
  adaptations_of, load_event, load_events, ScriptDefinition, load_script,
}
use playbook_harness.Arena.Schema.Loaded.{script_of, Chained, load_script-IsScript}
use playbook_harness.Arena.Schema.Rubric.{semantic, RubricCriterion}
use playbook_harness.Arena.Judge.{
  citations_of, claim_of, claims_of, semantic_ids, pass, fail, high, Claim, validate_output,
}
use playbook_harness.Arena.Judge.Output.{IsOutput, validate_output-IsOutput}
use playbook_harness.Arena.Judge.Aggregate.{Judgment, aggregate_judgments}
use playbook_harness.Arena.Judge.Agreement.{Agreed, aggregate_judgments-Agreed}

abbrev any_pattern : Text → Bool
any_pattern p = true

abbrev first_event : Members
first_event = member (codes "id") (string (codes "a")) (
    member (codes "message") (string (codes "go")) (
      member (codes "deliver_when") (string (codes "start")) (
        member (codes "after") null (
          member (codes "acknowledge") (string (codes "ok")) (
            member (codes "timeout_seconds") (number 30) (
              member (codes "on_timeout") (string (codes "fail")) (
                member (codes "known_facts") (array no_items) (
                  member (codes "allowed_adaptations") (object no_members)
                    (member (codes "forbidden_disclosures") (array no_items) no_members)))))))))

abbrev raw_script : Members
raw_script = member (codes "schema") (number 1) (
    member (codes "id") (string (codes "s"))
      (member (codes "events") (array (item (object first_event) no_items)) no_members))

abbrev script : ScriptDefinition
script = record {
  id = codes "s";
  events =
      record {
        event = record {
          id = codes "a";
          message = codes "go";
          deliver_when = start;
          acknowledge = codes "ok";
          timeout_seconds = 30;
          on_timeout = on_fail;
        };
        after = none;
        known_facts = [];
        allowed_adaptations = [];
        forbidden_disclosures = [];
      }
      ∷ [];
}

script-loaded : load_script any_pattern raw_script ≡ ok script
unfolding keys all_in text_mem text_eq get bounded_text is_encodable has_null utf8_length
    is_blank_line strip load_script load_events load_event is_identifier texts_of distinct_texts
    adaptations_of is_alnum all_id_chars
script-loaded = refl

load_script-IsScript_example : IsScript (script_of script.events) × Chained none script.events
load_script-IsScript_example = load_script-IsScript any_pattern raw_script script script-loaded

abbrev criteria : List RubricCriterion
criteria = record { id = codes "c"; kind = semantic; text = codes "it works" } ∷ []

abbrev answer : Json → Json
answer criterion = object (
    member (codes "schema") (number 1) (
      member (codes "judge_id") (string (codes "j")) (
        member (codes "claims")
          (array (
            item
              (object (
                member (codes "criterion_id") criterion (
                  member (codes "disposition") (string (codes "pass")) (
                    member (codes "confidence") (string (codes "high")) (
                      member (codes "rationale") (string (codes "seen")) (
                        member (codes "citations") (array (item (string (codes "log")) no_items))
                          no_members))))))
              no_items))
          no_members)))

abbrev shown : List Text
shown = codes "log" ∷ []

abbrev claim : Claim
claim = record {
  criterion_id = codes "c";
  disposition = pass;
  confidence = high;
  rationale = codes "seen";
  citations = shown;
}

answer-valid :
    validate_output (codes "j") criteria shown (answer (string (codes "c"))) ≡ ok (claim ∷ [])
unfolding keys all_in text_mem text_eq get bounded_text is_encodable has_null utf8_length
    is_blank_line strip validate_output semantic_ids claims_of claim_of citations_of distinct_texts
answer-valid = refl

-- A list in place of a criterion is no invalid answer, but a failure of another kind.
answer-unhashable :
    validate_output (codes "j") criteria shown (answer (array no_items)) ≡ err unhashable
unfolding keys all_in text_mem text_eq get bounded_text is_encodable has_null utf8_length
    is_blank_line strip validate_output semantic_ids claims_of claim_of citations_of distinct_texts
answer-unhashable = refl

validate_output-IsOutput_example : IsOutput criteria shown (claim ∷ [])
validate_output-IsOutput_example =
    validate_output-IsOutput (codes "j") criteria shown (answer (string (codes "c"))) (claim ∷ [])
      answer-valid

abbrev judgments : List Judgment
judgments =
    record { scored = true; claims = claim ∷ [] }
    ∷ record { scored = true; claims = claim ∷ [] }
    ∷ record { scored = true; claims = record claim { disposition = fail } ∷ [] }
    ∷ record { scored = false; claims = claim ∷ [] }
    ∷ []

aggregate_judgments-Agreed_example :
    Agreed criteria judgments (aggregate_judgments criteria judgments)
aggregate_judgments-Agreed_example = aggregate_judgments-Agreed criteria judgments

abbrev limits : Limits
limits = record { max_interventions = 2; max_output_bytes = 1000; control_deadline = 500 }

abbrev never : Text → Text → Bool
never pattern text = false

abbrev seen : Observation
seen = record {
  worker_state = running;
  prior_log = codes "$ ";
  current_log = codes "$ ";
  log_bytes = 2;
  sent = true;
  asked_at = 20;
  sent_at = 21;
  ends_at = 22;
}

abbrev log : List Entry
log = (control_round never (script_of script.events) limits seen []).1

-- A coordinator that is killed behind its first entry, and started again.
abbrev first_entry : List Entry → List Entry
first_entry [] = []
first_entry (e ∷ es) = e ∷ []

abbrev behind_first : List Entry → List Entry
behind_first [] = []
behind_first (e ∷ es) = es

first_entry-rest : (es : List Entry) → es ≡ ([] ++ first_entry es) ++ behind_first es
first_entry-rest [] = refl
first_entry-rest (e ∷ es) = refl

abbrev resumed : List Entry
resumed = (control_round never (script_of script.events) limits seen ([] ++ first_entry log)).1

load_script-delivers_once_example :
    ((t : ControllerState) × (replay_controller (script_of script.events) resumed ≡ ok t))
    × (requests_of (codes "a") resumed ≤ 1)
load_script-delivers_once_example =
    load_script-delivers_once any_pattern never limits raw_script script resumed (codes "a")
      script-loaded
      (round (killed begun seen (first_entry log) (behind_first log) (first_entry-rest log)) seen)
