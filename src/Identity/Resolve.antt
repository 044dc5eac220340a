-- ===== src/Identity/Resolve.antt =====
-- How a command finds out which conversation it serves.
use playbook_harness.Base.{
  Bool, false, not, ◌||◌, Option, none, some, List, [], ◌∷◌, if◌then◌else◌, Result, ok, err, ◌>>=◌,
}
use playbook_harness.Text.{Text, codes, text_eq, text_mem}
use playbook_harness.Identity.{
  IdentityError, missing_bridge, foreign_native, ids_disagree, not_authority, ambiguous_sources,
  unavailable, not_from_hook_json, hook_disagrees, normalized_session_env, provider_env, bridge_env,
  role_env, native_command_envs, validate_native_session_id, Spec, specs, identity_spec, SessionKey,
}
use playbook_harness.Identity.Env.{Env, get, get_set}

-- `environ.get(name) == value`
unfoldable pub holds : Env → Text → Text → Bool
holds env name value = elim (get env name) [ none ↦ false | some v ↦ text_eq v value ]

-- `_native_command_values`: each native variable that is set, validated.
unfoldable pub native_values_among : List Text → Env → Result IdentityError (List Text)
native_values_among [] env = ok []
native_values_among (name ∷ names) env = elim (get_set env name) [
  | none ↦ native_values_among names env
  | some v ↦ do
    id ← validate_native_session_id (some v)
    rest ← native_values_among names env
    ok (id ∷ rest)
]

abbrev pub native_command_values : Env → Result IdentityError (List Text)
native_command_values = native_values_among native_command_envs

-- `set(values)`
unfoldable pub distinct : List Text → List Text
distinct [] = []
distinct (v ∷ vs) = let rest = distinct vs in if text_mem v rest then rest else v ∷ rest

-- `provider or environ.get("PLAYBOOK_PROVIDER")`, when it is true.
unfoldable pub provider_hint : Env → Option Text → Option Text
provider_hint env (some (c ∷ t)) = some (c ∷ t)
provider_hint env (some []) = get_set env provider_env
provider_hint env none = get_set env provider_env

abbrev has_bridge : Env → Spec → Bool
has_bridge env spec = spec.command_env_is_native || holds env bridge_env spec.provider

-- The branch of `resolve_command_session_id` with a hint.
unfoldable pub resolve_with_spec : Env → Spec → Result IdentityError Text
resolve_with_spec env spec =
    if spec.command_env_is_native then validate_native_session_id (get env spec.command_env) else do
      native_values ← native_command_values env
      elim native_values [
        | v ∷ vs ↦ err foreign_native
        | [] ↦
            if not (has_bridge env spec)
            then err missing_bridge
            else validate_native_session_id (get env spec.command_env)
      ]

-- The branch without one.
unfoldable pub resolve_unhinted : Env → Result IdentityError Text
resolve_unhinted env = do
  native_values ← native_command_values env
  elim (distinct native_values) [
    | v ∷ [] ↦ ok v
    | v ∷ w ∷ vs ↦ err ids_disagree
    | [] ↦
        if holds env role_env (codes "noninteractive")
        then validate_native_session_id (get env normalized_session_env)
        else err not_authority
  ]

unfoldable pub resolve_id_by : Env → Option Text → Result IdentityError Text
resolve_id_by env (some hint) = do spec ← identity_spec hint; resolve_with_spec env spec
resolve_id_by env none = resolve_unhinted env

unfoldable pub resolve_command_session_id : Env → Option Text → Result IdentityError Text
unfolding resolve_id_by
resolve_command_session_id env provider = resolve_id_by env (provider_hint env provider)

-- The native specs whose variable is set.
unfoldable pub native_sources : Env → List Spec → List Spec
native_sources env [] = []
native_sources env (s ∷ ss) =
    let rest = native_sources env ss in
    if s.command_env_is_native
    then elim (get_set env s.command_env) [ none ↦ rest | some v ↦ s ∷ rest ]
    else rest

-- The branch without a hint: exactly one native source may be set.
unfoldable pub identity_from : Env → List Spec → Result IdentityError SessionKey
identity_from env [] = err unavailable
identity_from env (s ∷ []) = do
  id ← resolve_command_session_id env (some s.provider)
  ok (record { provider = s.provider; session_id = id })
identity_from env (s ∷ t ∷ ss) = err ambiguous_sources

unfoldable pub resolve_identity_by : Env → Option Text → Result IdentityError SessionKey
resolve_identity_by env (some hint) = do
  spec ← identity_spec hint
  id ← resolve_command_session_id env (some spec.provider)
  ok (record { provider = spec.provider; session_id = id })
resolve_identity_by env none = identity_from env (native_sources env specs)

unfoldable pub resolve_command_session_identity :
    Env → Option Text → Result IdentityError SessionKey
unfolding resolve_identity_by
resolve_command_session_identity env provider = resolve_identity_by env (provider_hint env provider)

-- The value visible to an agent-run command of a known provider.
unfoldable pub command_session_id : Text → Env → Result IdentityError Text
command_session_id provider env = do
  spec ← identity_spec provider
  if not (has_bridge env spec)
      then err missing_bridge
      else validate_native_session_id (get env spec.command_env)

unfoldable pub require_matching_session_id : Option Text → Option Text → Result IdentityError Text
require_matching_session_id hook_id command_id = do
  hook_value ← validate_native_session_id hook_id
  command_value ← validate_native_session_id command_id
  (if text_eq hook_value command_value then ok hook_value else err hook_disagrees)

-- The check of a hook's own observation against the command's, when there is one.
unfoldable pub agree_with_command : Text → Spec → Option Env → Text → Result IdentityError Text
agree_with_command provider spec none hook_id = ok hook_id
agree_with_command provider spec (some env) hook_id = elim (get_set env spec.command_env) [
  | none ↦ ok hook_id
  | some v ↦ do
    command_id ← command_session_id provider env
    checked ← require_matching_session_id (some hook_id) (some command_id)
    ok hook_id
]

unfoldable pub hook_session_id : Text → Env → Option Env → Result IdentityError Text
hook_session_id provider payload environ = do
  spec ← identity_spec provider
  elim spec.hook_field [
    | none ↦ err not_from_hook_json
    | some field ↦ do
      hook_id ← validate_native_session_id (get payload field)
      agree_with_command provider spec environ hook_id
  ]
