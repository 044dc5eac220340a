-- ===== src/Tests/Identities.antt =====
-- Instances of the theorems about session identities.
use playbook_harness.Base.{◌≡◌, ◌≢◌, refl, none, some, [], ◌∷◌, ok, if◌then◌else◌}
use playbook_harness.Text.{text_mem, codes, text_eq}
use playbook_harness.Identity.{
  SessionKey, identity_spec, find_spec, canonical_provider, validate_native_session_id,
}
use playbook_harness.Identity.Env.{
  Env, get, get_set, scrub_inherited_session_identity, hidden_names, get-scrubbed,
}
use playbook_harness.Identity.Resolve.{
  provider_hint, resolve_command_session_id, resolve_with_spec, resolve_command_session_identity,
}
use playbook_harness.Identity.Safe.{
  IsSafe, validate_native_session_id-IsSafe, resolve-scrub_isolated,
}

abbrev shell : Env
shell =
    (codes "PATH", codes "/bin")
    ∷ (codes "CODEX_THREAD_ID", codes "b2")
    ∷ (codes "PLAYBOOK_PROVIDER", codes "codex")
    ∷ []

abbrev key : SessionKey
key = record { provider = codes "codex"; session_id = codes "b2" }

resolved : resolve_command_session_identity shell none ≡ ok key
unfolding resolve_command_session_identity provider_hint get_set get text_eq identity_spec find_spec
    canonical_provider resolve_command_session_id resolve_with_spec validate_native_session_id
resolved = refl

b2-valid : validate_native_session_id (some (codes "b2")) ≡ ok (codes "b2")
unfolding validate_native_session_id
b2-valid = refl

validate_native_session_id-IsSafe_example :
    (some (codes "b2") ≡ some (codes "b2")) × IsSafe (codes "b2")
validate_native_session_id-IsSafe_example =
    validate_native_session_id-IsSafe (some (codes "b2")) b2-valid

resolve-scrub_isolated_example :
    resolve_command_session_identity (scrub_inherited_session_identity shell) none ≢ ok key
resolve-scrub_isolated_example = resolve-scrub_isolated shell none key

get-scrubbed_example :
    get (scrub_inherited_session_identity shell) (codes "PATH")
    ≡ (if text_mem (codes "PATH") hidden_names then none else get shell (codes "PATH"))
get-scrubbed_example = get-scrubbed shell (codes "PATH")
