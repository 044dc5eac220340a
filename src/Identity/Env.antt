-- ===== src/Identity/Env.antt =====
-- The environment of a process, and how a child's is made from it.
use playbook_harness.Base.{
  ◌≡◌, refl, sym, ◌∙◌, ◌++◌, Bool, true, ◌||◌, Option, none, some, List, [], ◌∷◌, arith,
  if◌then◌else◌, Result, ok, ◌>>=◌,
}
use playbook_harness.Text.{Text, codes, text_eq, text_eq_iff, text_mem}
use playbook_harness.Identity.{
  IdentityError, normalized_session_env, identity_env_names, parent_runtime_env_names,
  validate_native_session_id,
}

abbrev pub Env : Type 0
Env = List (Text × Text)

-- `environ.get(name)`
unfoldable pub get : Env → Text → Option Text
get [] name = none
get ((k, v) ∷ env) name = if text_eq k name then some v else get env name

-- `result[name] = value`
unfoldable pub put : Env → Text → Text → Env
put [] name value = (name, value) ∷ []
put ((k, v) ∷ env) name value =
    let rest = put env name value in if text_eq k name then (k, value) ∷ env else (k, v) ∷ rest

-- A value that Python takes for true: present, and not empty.
unfoldable pub get_set : Env → Text → Option Text
get_set env name = elim (get env name) [
  | none ↦ none
  | some v ↦ elim v [ [] ↦ none | c ∷ t ↦ some (c ∷ t) ]
]

unfoldable pub is_inherited : Text → Bool
is_inherited name = text_mem name identity_env_names || text_mem name parent_runtime_env_names

unfoldable pub scrub_inherited_session_identity : Env → Env
scrub_inherited_session_identity [] = []
scrub_inherited_session_identity ((k, v) ∷ env) =
    let rest = scrub_inherited_session_identity env in
    if is_inherited k then rest else (k, v) ∷ rest

unfoldable pub child_command_environment : Env → Option Text → Result IdentityError Env
child_command_environment env native_session_id = do
  session_id ← validate_native_session_id native_session_id
  ok (put env normalized_session_env session_id)

pub get-put :
    (env : Env) (k j v : Text) → get (put env k v) j ≡ (if text_eq k j then some v else get env j)
unfolding get put
get-put [] k j v = refl
get-put ((i, w) ∷ env) k j v =
    ground (arith, text_eq_iff i k, text_eq_iff i j, text_eq_iff k j, get-put env k j v)

is_inherited_eq : (k j : Text) → text_eq k j ≡ true → is_inherited k ≡ is_inherited j
is_inherited_eq k j h = cc ((text_eq_iff k j).0 h)

pub get-scrub_inherited_session_identity :
    (env : Env) (name : Text)
    → get (scrub_inherited_session_identity env) name
      ≡ (if is_inherited name then none else get env name)
unfolding get scrub_inherited_session_identity
get-scrub_inherited_session_identity [] name = ground arith
get-scrub_inherited_session_identity ((k, v) ∷ env) name = ground (
  arith,
  text_eq_iff k name,
  is_inherited_eq k name,
  get-scrub_inherited_session_identity env name,
)

-- The variables that say who an agent is or what runs it, one by one.
abbrev pub hidden_names : List Text
hidden_names =
    codes "PLAYBOOK_SESSION_ID"
    ∷ codes "CLAUDE_CODE_SESSION_ID"
    ∷ codes "CODEX_THREAD_ID"
    ∷ codes "ANTIGRAVITY_CONVERSATION_ID"
    ∷ codes "PLAYBOOK_BRIDGE_PROVIDER"
    ∷ codes "PLAYBOOK_ROLE"
    ∷ codes "PLAYBOOK_SESSION_NAME"
    ∷ codes "CLAUDECODE"
    ∷ codes "CLAUDE_CODE_CHILD_SESSION"
    ∷ codes "CLAUDE_CODE_ENTRYPOINT"
    ∷ codes "CLAUDE_CODE_MESSAGING_SOCKET"
    ∷ codes "CLAUDE_CODE_MESSAGING_TOKEN"
    ∷ codes "CLAUDE_CODE_SESSION_ATTENDED"
    ∷ codes "CLAUDE_PID"
    ∷ codes "CODEX_SANDBOX"
    ∷ codes "CODEX_SANDBOX_NETWORK_DISABLED"
    ∷ []

text_mem-append :
    (t : Text) (ss us : List Text) → text_mem t (ss ++ us) ≡ text_mem t ss || text_mem t us
unfolding text_mem
text_mem-append t [] us = refl
text_mem-append t (s ∷ ss) us = ground (arith, text_mem-append t ss us)

hidden_names-inherited : (name : Text) → is_inherited name ≡ text_mem name hidden_names
unfolding is_inherited
hidden_names-inherited name = sym (text_mem-append name identity_env_names parent_runtime_env_names)

-- A child sees none of the sixteen variables that say who its parent is or what runs it, and every
-- other variable as its parent does.
pub get-scrubbed :
    (env : Env) (name : Text)
    → get (scrub_inherited_session_identity env) name
      ≡ (if text_mem name hidden_names then none else get env name)
get-scrubbed env name =
    get-scrub_inherited_session_identity env name ∙ rw (hidden_names-inherited name) refl
