-- ===== src/Lanes/Create.antt =====
-- session_state.py: `create_managed_lane` and `resolve_managed_lane`. An operation takes the files
-- and gives its result and the files that it leaves.
use playbook_harness.Base.{
  Bool, true, false, not, ◌&&◌, ◌||◌, Option, none, some, List, [], ◌∷◌, if◌then◌else◌, Result, ok,
  err, ◌>>=◌,
}
use playbook_harness.Text.{Text, text_eq}
use playbook_harness.Lanes.{
  LaneError, bad_timestamp, body_in_use, name_in_use, empty_address, not_found, ambiguous,
  provisional, is_destroyed, Lane, Files, lane_of, write_lane,
}
use playbook_harness.Lanes.Validate.{
  Check, require, validate_managed_name, validate_body_id, validate_lane,
}

abbrev pub Step : Type 0
Step = Result LaneError Lane × Files

-- `left == right`, where a missing name is equal to nothing here.
unfoldable pub is_named : Option Text → Text → Bool
is_named none n = false
is_named (some m) n = text_eq m n

abbrev pub not_taken : Option Text → Lane → Check
not_taken none l = ok tt
not_taken (some n) l = require (is_destroyed l.state || not (is_named l.name n)) name_in_use

-- The loop of `create_managed_lane` over all lanes.
unfoldable pub name_is_free : (Text → Bool) → Option Text → Files → Check
name_is_free is_timestamp name [] = ok tt
name_is_free is_timestamp name ((k, l) ∷ files) = do
  valid ← validate_lane is_timestamp l
  free ← not_taken name l
  name_is_free is_timestamp name files

abbrev pub new_lane : Option Text → Text → Text → Text → Text → Lane
new_lane name body project cwd now = record {
  name = name;
  body_id = body;
  project = project;
  cwd = cwd;
  state = provisional;
  generation = 0;
  launch_provider = none;
  foreground_process_group = none;
  provider = none;
  session_id = none;
  last_bound_at = none;
  created_at = now;
  updated_at = now;
}

abbrev pub has_file : Option Lane → Bool
has_file none = false
has_file (some l) = true

abbrev pub creation :
    (Text → Bool) → Option Text → Text → Text → Text → Text → Files → Result LaneError Lane
creation is_timestamp name body project cwd now files = do
  a ← validate_managed_name name
  b ← validate_body_id body
  c ← require (is_timestamp now) bad_timestamp
  d ← require (not (has_file (lane_of body files))) body_in_use
  e ← name_is_free is_timestamp name files
  f ← validate_lane is_timestamp (new_lane name body project cwd now)
  ok (new_lane name body project cwd now)

-- The lane is written under its body id, or nothing is.
abbrev pub saved : Text → Files → Result LaneError Lane → Step
saved body files (err e) = (err e, files)
saved body files (ok l) = (ok l, write_lane body l files)

-- `create_managed_lane`; `body` is the given body id or the generated one, and the paths are
-- resolved.
unfoldable pub create_managed_lane :
    (Text → Bool) → Option Text → Text → Text → Text → Text → Files → Step
create_managed_lane is_timestamp name body project cwd now files =
    saved body files (creation is_timestamp name body project cwd now files)

-- The lanes that an address means: the live ones and the destroyed ones, in order.
unfoldable pub addressed : (Text → Bool) → Text → Bool → Files → Result LaneError (List Lane)
addressed is_timestamp address dead [] = ok []
addressed is_timestamp address dead ((k, l) ∷ files) = do
  valid ← validate_lane is_timestamp l
  rest ← addressed is_timestamp address dead files
  (if (text_eq l.body_id address || is_named l.name address)
        && (if dead then is_destroyed l.state else not (is_destroyed l.state))
      then ok (l ∷ rest)
      else ok rest)

-- `max(destroyed, key=updated_at)`: the first of the latest. `before` compares strings.
unfoldable pub latest : (Text → Text → Bool) → Lane → List Lane → Lane
latest before best [] = best
latest before best (l ∷ ls) =
    latest before (if before best.updated_at l.updated_at then l else best) ls

abbrev pub pick : (Text → Text → Bool) → Bool → List Lane → List Lane → Result LaneError Lane
pick before include_destroyed (l ∷ []) dead = ok l
pick before include_destroyed (l ∷ m ∷ ls) dead = err ambiguous
pick before true [] (d ∷ ds) = ok (latest before d ds)
pick before true [] [] = err not_found
pick before false [] dead = err not_found

unfoldable pub resolve_managed_lane :
    (Text → Bool) → (Text → Text → Bool) → Text → Bool → Files → Result LaneError Lane
resolve_managed_lane is_timestamp before [] include_destroyed files = err empty_address
resolve_managed_lane is_timestamp before (c ∷ t) include_destroyed files = do
  live ← addressed is_timestamp (c ∷ t) false files
  dead ← addressed is_timestamp (c ∷ t) true files
  pick before include_destroyed live dead
