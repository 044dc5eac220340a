-- ===== src/Tests/Terminals.antt =====
-- A directory of two lanes, and instances of the theorems about lanes.
use playbook_harness.Base.{◌≡◌, refl, Bool, true, false, none, some, [], ◌∷◌, ok, err}
use playbook_harness.Text.{Text, codes, text_eq}
use playbook_harness.Identity.{
  SessionKey, key_eq, from_values, identity_spec, find_spec, canonical_provider,
  validate_native_session_id,
}
use playbook_harness.Lanes.{
  LaneError, shell_idle, provider_running, launch_reserved, Lane, Files, lane_of,
  matches_managed_name, state_eq,
}
use playbook_harness.Lanes.Validate.{validate_lane}
use playbook_harness.Lanes.Create.{is_named, create_managed_lane}
use playbook_harness.Lanes.Transition.{
  bind, Change, transition_managed_lane, transition, swapped, finalize_lane_binding,
  record_lane_foreground,
}
use playbook_harness.Lanes.Store.{clash, same_name}
use playbook_harness.Lanes.Names.{IsDirectory, operations-IsDirectory}
use playbook_harness.Lanes.Swap.{
  Refused, transition_managed_lane-wins_once, finalize_lane_binding-binds_once,
}

abbrev any_time : Text → Bool
any_time t = true

abbrev idle : Lane
idle = record {
  name = some (codes "one");
  body_id = codes "b1";
  project = codes "/p";
  cwd = codes "/p";
  state = shell_idle;
  generation = 3;
  launch_provider = none;
  foreground_process_group = none;
  provider = none;
  session_id = none;
  last_bound_at = none;
  created_at = codes "t0";
  updated_at = codes "t0";
}

abbrev busy : Lane
busy = record idle {
  name = some (codes "two");
  body_id = codes "b2";
  state = provider_running;
  launch_provider = some (codes "claude");
  provider = some (codes "claude");
  session_id = some (codes "a1");
}

abbrev files : Files
files = (codes "b1", idle) ∷ (codes "b2", busy) ∷ []

files-IsDirectory : IsDirectory any_time files
unfolding validate_lane matches_managed_name from_values identity_spec find_spec canonical_provider
    validate_native_session_id text_eq clash same_name is_named
files-IsDirectory = record {
  valid = ((refl, refl), ((refl, refl), tt));
  apart = ((refl, tt), (tt, tt));
}

abbrev launch : Change
launch = record {
  expected_state = shell_idle;
  state = launch_reserved;
  expected_generation = some 3;
  provider = none;
  session_id = none;
  launch_provider = some (codes "claude");
  foreground_process_group = none;
  last_bound_at = none;
  advance_generation = true;
}

abbrev launched : Lane
launched = record idle {
  state = launch_reserved;
  generation = 4;
  launch_provider = some (codes "claude");
  updated_at = codes "t1";
}

files-b1 : lane_of (codes "b1") files ≡ some idle
unfolding lane_of text_eq
files-b1 = refl

launch-succeeds :
    (transition_managed_lane any_time (codes "b1") launch (codes "t1") files).0 ≡ ok launched
unfolding transition_managed_lane transition swapped lane_of state_eq validate_lane
    matches_managed_name from_values identity_spec find_spec canonical_provider
    validate_native_session_id text_eq
launch-succeeds = refl

abbrev key_b : SessionKey
key_b = record { provider = codes "claude"; session_id = codes "b2" }

operations-IsDirectory_example :
    IsDirectory any_time
      (create_managed_lane any_time
        (some (codes "one"))
        (codes "b1")
        (codes "/p")
        (codes "/p")
        (codes "t1")
        files).1
    × IsDirectory any_time
        (transition_managed_lane any_time (codes "b1") launch (codes "t1") files).1
    × IsDirectory any_time (finalize_lane_binding any_time (codes "b1") key_b (codes "t1") files).1
    × IsDirectory any_time (record_lane_foreground any_time (codes "b1") 4 77 (codes "t1") files).1
operations-IsDirectory_example =
    operations-IsDirectory any_time files (some (codes "one")) (codes "b1") (codes "/p")
      (codes "/p") (codes "t1") launch key_b 4 77 files-IsDirectory refl

b1-not-b2 : text_eq (codes "b1") (codes "b2") ≡ false
unfolding text_eq
b1-not-b2 = refl

transition_managed_lane-wins_once_example :
    Refused
      (transition_managed_lane any_time
        (codes "b1")
        launch
        (codes "t2")
        (transition_managed_lane any_time (codes "b1") launch (codes "t1") files).1)
      (transition_managed_lane any_time (codes "b1") launch (codes "t1") files).1
    × (lane_of
          (codes "b2")
          (transition_managed_lane any_time (codes "b1") launch (codes "t1") files).1
        ≡ lane_of (codes "b2") files)
transition_managed_lane-wins_once_example =
    transition_managed_lane-wins_once any_time (codes "b1") launch (codes "t1") files idle launched
      launch (codes "t2") (codes "b2") files-b1 refl launch-succeeds refl b1-not-b2

abbrev key_a : SessionKey
key_a = record { provider = codes "claude"; session_id = codes "a1" }

abbrev waiting : Files
waiting = (codes "b1", launched) ∷ []

waiting-b1 : lane_of (codes "b1") waiting ≡ some launched
unfolding lane_of text_eq
waiting-b1 = refl

waiting-bound : (finalize_lane_binding any_time (codes "b1") key_a (codes "t1") waiting).0 ≡ ok tt
unfolding finalize_lane_binding bind lane_of state_eq validate_lane matches_managed_name from_values
    identity_spec find_spec canonical_provider validate_native_session_id text_eq
waiting-bound = refl

a-not-b : key_eq key_a key_b ≡ false
unfolding key_eq text_eq
a-not-b = refl

finalize_lane_binding-binds_once_example :
    (e : LaneError) × (finalize_lane_binding any_time
        (codes "b1")
        key_b
        (codes "t2")
        (finalize_lane_binding any_time (codes "b1") key_a (codes "t1") waiting).1
      ≡ (err e, (finalize_lane_binding any_time (codes "b1") key_a (codes "t1") waiting).1))
finalize_lane_binding-binds_once_example =
    finalize_lane_binding-binds_once any_time (codes "b1") key_a key_b (codes "t1") (codes "t2")
      waiting launched waiting-b1 waiting-bound a-not-b
