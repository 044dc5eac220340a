-- ===== src/Identity.antt =====
-- src/provider/session_identity.py: the identity of a provider's conversation.
-- An environment and a JSON object are lists of names with values; of a payload only the values
-- that are strings are listed, since the code refuses the others and the missing ones alike.
pub mod Env
pub mod Resolve
pub mod Safe
use playbook_harness.Base.{
  ℕ, suc, zero, Bool, true, false, ◌&&◌, ◌||◌, Option, none, some, List, [], ◌∷◌, ◌==◌,
  if◌then◌else◌, Result, ok, err, length, leb, ◌>>=◌,
}
use playbook_harness.Text.{Text, codes, text_eq, within}

pub data IdentityError : Type 0 where
  no_contract malformed_id missing_bridge foreign_native : IdentityError
  ids_disagree not_authority ambiguous_sources unavailable : IdentityError
  not_from_hook_json hook_disagrees : IdentityError

abbrev pub normalized_session_env : Text
normalized_session_env = codes "PLAYBOOK_SESSION_ID"

abbrev pub provider_env : Text
provider_env = codes "PLAYBOOK_PROVIDER"

abbrev pub bridge_env : Text
bridge_env = codes "PLAYBOOK_BRIDGE_PROVIDER"

abbrev pub role_env : Text
role_env = codes "PLAYBOOK_ROLE"

abbrev pub native_command_envs : List Text
native_command_envs =
    codes "CLAUDE_CODE_SESSION_ID"
    ∷ codes "CODEX_THREAD_ID"
    ∷ codes "ANTIGRAVITY_CONVERSATION_ID"
    ∷ []

abbrev pub identity_env_names : List Text
identity_env_names =
    normalized_session_env
    ∷ codes "CLAUDE_CODE_SESSION_ID"
    ∷ codes "CODEX_THREAD_ID"
    ∷ codes "ANTIGRAVITY_CONVERSATION_ID"
    ∷ bridge_env
    ∷ role_env
    ∷ codes "PLAYBOOK_SESSION_NAME"
    ∷ []

abbrev pub parent_runtime_env_names : List Text
parent_runtime_env_names =
    codes "CLAUDECODE"
    ∷ codes "CLAUDE_CODE_CHILD_SESSION"
    ∷ codes "CLAUDE_CODE_ENTRYPOINT"
    ∷ codes "CLAUDE_CODE_MESSAGING_SOCKET"
    ∷ codes "CLAUDE_CODE_MESSAGING_TOKEN"
    ∷ codes "CLAUDE_CODE_SESSION_ATTENDED"
    ∷ codes "CLAUDE_PID"
    ∷ codes "CODEX_SANDBOX"
    ∷ codes "CODEX_SANDBOX_NETWORK_DISABLED"
    ∷ []

-- The first character of `_SESSION_ID_RE`.
unfoldable pub is_alnum : ℕ → Bool
is_alnum c = within b'A' b'Z' c || within b'a' b'z' c || within b'0' b'9' c

-- The others.
unfoldable pub is_id_char : ℕ → Bool
unfolding is_alnum
is_id_char c = is_alnum c || c == b'.' || c == b'_' || c == b'-'

unfoldable pub all_id_chars : Text → Bool
unfolding is_id_char
all_id_chars [] = true
all_id_chars (c ∷ t) = is_id_char c && all_id_chars t

-- `_SESSION_ID_RE.fullmatch(value)`
unfoldable pub matches_session_id : Text → Bool
unfolding is_alnum all_id_chars
matches_session_id [] = false
matches_session_id (c ∷ t) = is_alnum c && all_id_chars t && leb (length t) 199

-- `none` is a missing value, or one that is no string.
unfoldable pub validate_native_session_id : Option Text → Result IdentityError Text
unfolding matches_session_id
validate_native_session_id none = err malformed_id
validate_native_session_id (some v) = if matches_session_id v then ok v else err malformed_id

pub record Spec : Type 0 where
  pub provider : Text
  pub hook_source : Text
  pub hook_field : Option Text
  pub command_env : Text
  pub command_env_is_native : Bool

abbrev pub specs : List Spec
specs =
    record {
      provider = codes "claude";
      hook_source = codes "hook payload session_id";
      hook_field = some (codes "session_id");
      command_env = codes "CLAUDE_CODE_SESSION_ID";
      command_env_is_native = true;
    }
    ∷ record {
      provider = codes "codex";
      hook_source = codes "hook payload session_id";
      hook_field = some (codes "session_id");
      command_env = codes "CODEX_THREAD_ID";
      command_env_is_native = true;
    }
    ∷ record {
      provider = codes "antigravity";
      hook_source = codes "hook payload conversationId";
      hook_field = some (codes "conversationId");
      command_env = codes "ANTIGRAVITY_CONVERSATION_ID";
      command_env_is_native = true;
    }
    ∷ record {
      provider = codes "pi";
      hook_source = codes "ctx.sessionManager.getSessionId()";
      hook_field = none;
      command_env = normalized_session_env;
      command_env_is_native = false;
    }
    ∷ record {
      provider = codes "omp";
      hook_source = codes "ctx.sessionManager.getSessionId()";
      hook_field = none;
      command_env = normalized_session_env;
      command_env_is_native = false;
    }
    ∷ []

unfoldable pub find_spec : Text → List Spec → Option Spec
unfolding text_eq
find_spec name [] = none
find_spec name (s ∷ ss) = if text_eq s.provider name then some s else find_spec name ss

-- `_ALIASES.get(provider, provider)`
unfoldable pub canonical_provider : Text → Text
unfolding text_eq
canonical_provider p = if text_eq p (codes "agy") then codes "antigravity" else p

abbrev pub require_spec : Option Spec → Result IdentityError Spec
require_spec none = err no_contract
require_spec (some s) = ok s

unfoldable pub identity_spec : Text → Result IdentityError Spec
identity_spec provider = require_spec (find_spec (canonical_provider provider) specs)

-- `SessionKey` of src/provider/session_state.py.
pub record SessionKey : Type 0 where
  pub provider : Text
  pub session_id : Text

-- `SessionKey.from_values`
unfoldable pub from_values : Text → Option Text → Result IdentityError SessionKey
from_values provider session_id = do
  spec ← identity_spec provider
  id ← validate_native_session_id session_id
  ok (record { provider = spec.provider; session_id = id })

-- `SessionKey.__eq__`
unfoldable pub key_eq : SessionKey → SessionKey → Bool
key_eq a b = text_eq a.provider b.provider && text_eq a.session_id b.session_id
