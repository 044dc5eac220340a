-- ===== src/Lanes/Transition.antt =====
-- session_state.py: `transition_managed_lane`, a compare-and-swap, `_finalize_lane_binding_locked`
-- and `record_lane_foreground`.
use playbook_harness.Base.{
  ℕ, suc, Bool, true, false, not, ◌&&◌, ◌||◌, Option, none, some, ◌==◌, if◌then◌else◌, Result, ok,
  err, ◌>>=◌, leb,
}
use playbook_harness.Text.{Text, text_eq}
use playbook_harness.Identity.{SessionKey}
use playbook_harness.Lanes.{
  LaneError, bad_timestamp, bad_foreground, partial_identity, not_found, conflict, cannot_bind,
  other_provider, bound_differently, LaneState, launch_reserved, relaunching, provider_running,
  state_eq, Lane, Files, lane_of, write_lane,
}
use playbook_harness.Lanes.Validate.{
  Check, require, validate_body_id, validate_foreground, validate_lane, session_key, canonical,
}
use playbook_harness.Lanes.Create.{Step, saved}

-- The arguments of `transition_managed_lane`.
pub record Change : Type 0 where
  pub expected_state : LaneState
  pub state : LaneState
  pub expected_generation : Option ℕ
  pub provider : Option Text
  pub session_id : Option Text
  pub launch_provider : Option Text
  pub foreground_process_group : Option ℕ
  pub last_bound_at : Option Text
  pub advance_generation : Bool

abbrev pub found : Option Lane → Result LaneError Lane
found none = err not_found
found (some l) = ok l

abbrev pub is_generation : Option ℕ → ℕ → Bool
is_generation none g = true
is_generation (some e) g = g == e

-- The identity that is written: canonical and complete, or absent.
abbrev pub canonical_identity :
    Option Text → Option Text → Result LaneError (Option Text × Option Text)
canonical_identity none none = ok (none, none)
canonical_identity (some p) (some s) = do
  key ← session_key p (some s)
  ok (some key.provider, some key.session_id)
canonical_identity none (some s) = err partial_identity
canonical_identity (some p) none = err partial_identity

abbrev pub canonical_launch : Option Text → Result LaneError (Option Text)
canonical_launch none = ok none
canonical_launch (some p) = do c ← canonical p; ok (some c)

abbrev pub updated : Lane → Change → Option Text × Option Text → Option Text → Text → Lane
updated l c who launch now = record l {
  state = c.state;
  provider = who.0;
  session_id = who.1;
  launch_provider = launch;
  foreground_process_group = c.foreground_process_group;
  last_bound_at = c.last_bound_at;
  updated_at = now;
  generation = if c.advance_generation then suc l.generation else l.generation;
}

-- From the comparison to the lane that is written.
unfoldable pub swapped : (Text → Bool) → Lane → Change → Text → Result LaneError Lane
swapped is_timestamp l c now = do
  same ← require (state_eq l.state c.expected_state) conflict
  same_generation ← require (is_generation c.expected_generation l.generation) conflict
  who ← canonical_identity c.provider c.session_id
  launch ← canonical_launch c.launch_provider
  foreground ← validate_foreground c.foreground_process_group
  valid ← validate_lane is_timestamp (updated l c who launch now)
  ok (updated l c who launch now)

unfoldable pub transition :
    (Text → Bool) → Text → Change → Text → Option Lane → Result LaneError Lane
transition is_timestamp body c now o = do
  stamp ← require (is_timestamp now) bad_timestamp
  safe ← validate_body_id body
  l ← found o
  valid ← validate_lane is_timestamp l
  swapped is_timestamp l c now

unfoldable pub transition_managed_lane : (Text → Bool) → Text → Change → Text → Files → Step
transition_managed_lane is_timestamp body c now files =
    saved body files (transition is_timestamp body c now (lane_of body files))

abbrev pub can_bind : LaneState → Bool
can_bind launch_reserved = true
can_bind relaunching = true
can_bind provider_running = true
can_bind _ = false

abbrev pub is_text : Option Text → Text → Bool
is_text none t = false
is_text (some s) t = text_eq s t

abbrev pub is_unbound : Option Text → Option Text → Bool
is_unbound none none = true
is_unbound _ _ = false

abbrev pub bound_lane : Lane → SessionKey → Text → Lane
bound_lane l key now = record l {
  state = provider_running;
  provider = some key.provider;
  session_id = some key.session_id;
  last_bound_at = some now;
  updated_at = now;
}

unfoldable pub bind : (Text → Bool) → Lane → SessionKey → Text → Result LaneError Lane
bind is_timestamp l key now = do
  valid ← validate_lane is_timestamp l
  a ← require (can_bind l.state) cannot_bind
  b ← require (is_text l.launch_provider key.provider) other_provider
  c ←
      require
        (is_unbound l.provider l.session_id
          || (is_text l.provider key.provider && is_text l.session_id key.session_id))
        bound_differently
  d ← validate_lane is_timestamp (bound_lane l key now)
  ok (bound_lane l key now)

abbrev pub publish : Text → Files → Result LaneError Lane → Check × Files
publish body files (err e) = (err e, files)
publish body files (ok m) = (ok tt, write_lane body m files)

-- A body without a lane is passed over.
abbrev pub bind_file :
    (Text → Bool) → Text → SessionKey → Text → Files → Option Lane → Check × Files
bind_file is_timestamp body key now files none = (ok tt, files)
bind_file is_timestamp body key now files (some l) =
    publish body files (bind is_timestamp l key now)

abbrev pub bind_safe : (Text → Bool) → Text → SessionKey → Text → Files → Check → Check × Files
bind_safe is_timestamp body key now files (err e) = (err e, files)
bind_safe is_timestamp body key now files (ok u) =
    bind_file is_timestamp body key now files (lane_of body files)

-- `_finalize_lane_binding_locked`
unfoldable pub finalize_lane_binding :
    (Text → Bool) → Text → SessionKey → Text → Files → Check × Files
finalize_lane_binding is_timestamp body key now files =
    bind_safe is_timestamp body key now files (validate_body_id body)

abbrev pub run_by : Lane → ℕ → Text → Lane
run_by l group now = record l {
  state = provider_running;
  foreground_process_group = some group;
  updated_at = now;
}

-- `record_lane_foreground`
unfoldable pub foreground :
    (Text → Bool) → Text → ℕ → ℕ → Text → Option Lane → Result LaneError Lane
foreground is_timestamp body generation group now o = do
  a ← require (not (leb group 1)) bad_foreground
  b ← require (is_timestamp now) bad_timestamp
  c ← validate_body_id body
  l ← found o
  d ← validate_lane is_timestamp l
  e ← require (l.generation == generation && can_bind l.state) conflict
  f ← validate_lane is_timestamp (run_by l group now)
  ok (run_by l group now)

unfoldable pub record_lane_foreground : (Text → Bool) → Text → ℕ → ℕ → Text → Files → Step
record_lane_foreground is_timestamp body generation group now files =
    saved body files (foreground is_timestamp body generation group now (lane_of body files))
