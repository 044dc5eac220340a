-- ===== src/Lanes.antt =====
-- src/provider/session_state.py: managed lanes, the durable terminals that conversations run in.
-- A lane's file is a `Lane`; the code's constant members `schema` and `owner` are left out. The
-- directory of lanes is the list of its files, in the order that `glob` gives, each under the body
-- id that its name holds. Time stamps are texts, and whether one can be parsed is a parameter.
pub mod Validate
pub mod Create
pub mod Transition
pub mod Store
pub mod Names
pub mod Swap
use playbook_harness.Base.{
  ℕ, suc, Bool, true, false, not, ◌&&◌, ◌||◌, Option, none, some, List, [], ◌∷◌, ◌==◌,
  if◌then◌else◌, leb, length,
}
use playbook_harness.Text.{Text, text_eq}
use playbook_harness.Identity.{IdentityError, is_alnum, all_id_chars}

-- `SessionStateError`, by its message.
pub data LaneError : Type 0 where
  bad_timestamp bad_name bad_body_id bad_path bad_provider bad_foreground : LaneError
  partial_identity body_in_use name_in_use empty_address not_found ambiguous : LaneError
  conflict cannot_bind other_provider bound_differently : LaneError
  identity : IdentityError → LaneError
  bad_launch bad_token bad_ttl bad_operation token_reserved target_missing not_stopped : LaneError
  name_changed name_reserved resume_in_progress path_disagrees body_disagrees : LaneError
  bad_record record_disagrees planted_files record_changed : LaneError
  incomplete_environment provider_disagrees unknown_capability expired_capability : LaneError
  binding_disagrees claimed_differently other_resumed session_exists : LaneError
  bad_task_number malformed_cache : LaneError

-- `_LANE_STATES`
pub data LaneState : Type 0 where
  provisional shell_idle launch_reserved provider_running provider_exited : LaneState
  relaunching destroyed : LaneState

unfoldable pub state_eq : LaneState → LaneState → Bool
state_eq provisional provisional = true
state_eq shell_idle shell_idle = true
state_eq launch_reserved launch_reserved = true
state_eq provider_running provider_running = true
state_eq provider_exited provider_exited = true
state_eq relaunching relaunching = true
state_eq destroyed destroyed = true
state_eq _ _ = false

abbrev pub is_destroyed : LaneState → Bool
is_destroyed destroyed = true
is_destroyed _ = false

pub record Lane : Type 0 where
  pub name : Option Text
  pub body_id : Text
  pub project : Text
  pub cwd : Text
  pub state : LaneState
  pub generation : ℕ
  pub launch_provider : Option Text
  pub foreground_process_group : Option ℕ
  pub provider : Option Text
  pub session_id : Option Text
  pub last_bound_at : Option Text
  pub created_at : Text
  pub updated_at : Text

-- The files of the directory, by body id.
abbrev pub Files : Type 0
Files = List (Text × Lane)

-- `_MANAGED_NAME_RE.fullmatch`, and `_BODY_ID_RE`, the same pattern.
unfoldable pub matches_managed_name : Text → Bool
matches_managed_name [] = false
matches_managed_name (c ∷ t) = is_alnum c && all_id_chars t && leb (length t) 63

-- The lane of a body, when its file exists.
unfoldable pub lane_of : Text → Files → Option Lane
lane_of body [] = none
lane_of body ((k, l) ∷ files) = if text_eq k body then some l else lane_of body files

-- `_atomic_json`: the file of a body is replaced, or made.
unfoldable pub write_lane : Text → Lane → Files → Files
write_lane body lane [] = (body, lane) ∷ []
write_lane body lane ((k, l) ∷ files) =
    let rest = write_lane body lane files in
    if text_eq k body then (k, lane) ∷ files else (k, l) ∷ rest
