-- ===== src/Identity/Safe.antt =====
-- What a session identity guarantees: the value is safe as a path component, it comes from the one
-- native source that is set, and a scrubbed environment gives none.
use playbook_harness.Base.{
  ℕ, ◌≤◌, ◌≡◌, ◌≢◌, refl, ap, true, false, Option, none, some, List, [], ◌∷◌, arith, ok, length,
  All, leb, >>=-eq-ok,
}
use playbook_harness.Text.{Text, is_space, text_eq, text_mem}
use playbook_harness.Identity.{
  Spec, specs, SessionKey, is_alnum, is_id_char, all_id_chars, matches_session_id,
  validate_native_session_id, identity_spec, find_spec, canonical_provider, role_env,
  native_command_envs,
}
use playbook_harness.Identity.Env.{
  Env, get_set, is_inherited, scrub_inherited_session_identity,
  get-scrub_inherited_session_identity,
}
use playbook_harness.Identity.Resolve.{
  resolve_with_spec, resolve_command_session_id, resolve_command_session_identity, native_sources,
  provider_hint, native_values_among, resolve_unhinted, holds, distinct, resolve_id_by,
  resolve_identity_by, identity_from,
}

-- No separator of paths, no white space.
abbrev IsPlain : ℕ → Type 0
IsPlain c = (c ≢ b'/') × (is_space c ≡ false)

-- One component of a path that is neither hidden nor a step to the parent, of bounded length.
pub record IsSafe (v : Text) : Type 0 where
  pub starts : (c : ℕ) × (t : Text) × (v ≡ c ∷ t) × (is_alnum c ≡ true)
  pub plain : All IsPlain v
  pub bounded : length v ≤ 200

is_id_char_range : (c : ℕ) → is_id_char c ≡ true → (33 ≤ c) × (c ≤ 122) × (c ≢ b'/')
unfolding is_id_char
is_id_char_range c h = ground arith

is_space-graphic : (c : ℕ) → 33 ≤ c → c ≤ 122 → is_space c ≡ false
unfolding is_space
is_space-graphic c h k = ground arith

is_id_char-IsPlain : (c : ℕ) → is_id_char c ≡ true → IsPlain c
is_id_char-IsPlain c h = let r = is_id_char_range c h in (r.2, is_space-graphic c r.0 r.1)

is_alnum-is_id_char : (c : ℕ) → is_alnum c ≡ true → is_id_char c ≡ true
unfolding is_id_char
is_alnum-is_id_char c h = rw h

all_id_chars-IsPlain : (t : Text) → all_id_chars t ≡ true → All IsPlain t
unfolding all_id_chars
all_id_chars-IsPlain [] h = tt
all_id_chars-IsPlain (c ∷ t) h =
    let p : (is_id_char c ≡ true) × (all_id_chars t ≡ true) = ground arith in
    (is_id_char-IsPlain c p.0, all_id_chars-IsPlain t p.1)

matches_session_id-IsSafe : (v : Text) → matches_session_id v ≡ true → IsSafe v
unfolding matches_session_id
matches_session_id-IsSafe [] h = cc
matches_session_id-IsSafe (c ∷ t) h =
    let p : (is_alnum c ≡ true) × (all_id_chars t ≡ true) × (leb (length t) 199 ≡ true) =
      ground arith in
    record {
      starts = (c, t, refl, p.0);
      plain = (is_id_char-IsPlain c (is_alnum-is_id_char c p.0), all_id_chars-IsPlain t p.1);
      bounded = ground arith;
    }

-- An accepted identity is the value that was given, and it is safe.
pub validate_native_session_id-IsSafe :
    (value : Option Text) {id : Text}
    → validate_native_session_id value ≡ ok id
    → (value ≡ some id) × IsSafe id
unfolding validate_native_session_id
validate_native_session_id-IsSafe none h = cc
validate_native_session_id-IsSafe (some v) h = ground (arith, matches_session_id-IsSafe v)

with_spec_scrubbed :
    (env : Env) (spec : Spec) (id : Text)
    → is_inherited spec.command_env ≡ true
    → resolve_with_spec (scrub_inherited_session_identity env) spec ≢ ok id
unfolding resolve_with_spec validate_native_session_id
with_spec_scrubbed env spec id h r =
    ground (arith, get-scrub_inherited_session_identity env spec.command_env)

abbrev IsScrubbed : Spec → Type 0
IsScrubbed s = is_inherited s.command_env ≡ true

find_spec-IsScrubbed :
    (name : Text) (ss : List Spec) {s : Spec}
    → All IsScrubbed ss
    → find_spec name ss ≡ some s
    → IsScrubbed s
unfolding find_spec
find_spec-IsScrubbed name [] h e = cc
find_spec-IsScrubbed name (t ∷ ss) {s} h e =
    ground (arith, find_spec-IsScrubbed name ss {s = s} h.1)

specs-IsScrubbed : All IsScrubbed specs
unfolding is_inherited text_mem text_eq
specs-IsScrubbed = (refl, (refl, (refl, (refl, (refl, tt)))))

identity_spec-IsScrubbed : (name : Text) {s : Spec} → identity_spec name ≡ ok s → IsScrubbed s
unfolding identity_spec
identity_spec-IsScrubbed name {s} h =
    ground (arith, find_spec-IsScrubbed (canonical_provider name) specs {s = s} specs-IsScrubbed)

native_sources_scrubbed :
    (env : Env) (ss : List Spec)
    → All IsScrubbed ss
    → native_sources (scrub_inherited_session_identity env) ss ≡ []
unfolding native_sources get_set
native_sources_scrubbed env [] h = refl
native_sources_scrubbed env (s ∷ ss) h = ground (
  arith,
  get-scrub_inherited_session_identity env s.command_env,
  native_sources_scrubbed env ss h.1,
)

native_names-inherited : All (λ n. is_inherited n ≡ true) (role_env ∷ native_command_envs)
unfolding is_inherited text_mem text_eq
native_names-inherited = (refl, (refl, (refl, (refl, tt))))

native_values_scrubbed :
    (env : Env) (names : List Text)
    → All (λ n. is_inherited n ≡ true) names
    → native_values_among names (scrub_inherited_session_identity env) ≡ ok []
unfolding native_values_among get_set
native_values_scrubbed env [] h = refl
native_values_scrubbed env (n ∷ names) h =
    ground (arith, get-scrub_inherited_session_identity env n, native_values_scrubbed env names h.1)

unhinted_scrubbed :
    (env : Env) (id : Text) → resolve_unhinted (scrub_inherited_session_identity env) ≢ ok id
unfolding resolve_unhinted holds distinct
unhinted_scrubbed env id h = ground (
  arith,
  native_values_scrubbed env native_command_envs native_names-inherited.1,
  get-scrub_inherited_session_identity env role_env,
  native_names-inherited.0,
)

id_by_scrubbed :
    (env : Env) (hint : Option Text) (id : Text)
    → resolve_id_by (scrub_inherited_session_identity env) hint ≢ ok id
unfolding resolve_id_by
id_by_scrubbed env none id h = unhinted_scrubbed env id h
id_by_scrubbed env (some hint) id h =
    let (spec, p, q) =
      >>=-eq-ok (identity_spec hint) (resolve_with_spec (scrub_inherited_session_identity env)) h in
    with_spec_scrubbed env spec id (identity_spec-IsScrubbed hint p) q

command_id_scrubbed :
    (env : Env) (provider : Option Text) (id : Text)
    → resolve_command_session_id (scrub_inherited_session_identity env) provider ≢ ok id
unfolding resolve_command_session_id
command_id_scrubbed env provider id h = id_by_scrubbed env (provider_hint _ provider) id h

identity_by_scrubbed :
    (env : Env) (hint : Option Text) (key : SessionKey)
    → resolve_identity_by (scrub_inherited_session_identity env) hint ≢ ok key
unfolding resolve_identity_by identity_from
identity_by_scrubbed env none key h = cc (
  native_sources_scrubbed env specs specs-IsScrubbed,
  ap (identity_from (scrub_inherited_session_identity env))
      (native_sources_scrubbed env specs specs-IsScrubbed),
)
identity_by_scrubbed env (some hint) key h =
    let (spec, p, q) = >>=-eq-ok (identity_spec hint) _ h in
    let (id, r, t) =
      >>=-eq-ok
        (resolve_command_session_id (scrub_inherited_session_identity env) (some spec.provider)) _
        q in
    command_id_scrubbed env (some spec.provider) id r

-- From an environment that was scrubbed for a child no identity can be resolved, with any hint.
pub resolve-scrub_isolated :
    (env : Env) (provider : Option Text) (key : SessionKey)
    → resolve_command_session_identity (scrub_inherited_session_identity env) provider ≢ ok key
unfolding resolve_command_session_identity
resolve-scrub_isolated env provider key h =
    identity_by_scrubbed env (provider_hint (scrub_inherited_session_identity env) provider) key h
