-- ===== src/Detection.antt =====
-- src/tasks/provider_detection.py: the version that a provider's command prints, and the status of the
-- provider. The search for executables, the probe and its environment are not modelled: a probe is
-- what it gave, with the texts of its two streams joined.
pub mod Order
use playbook_harness.Base.{
  ℕ, ◌+◌, ◌*◌, ◌-◌, Bool, true, false, not, ◌&&◌, Option, none, some, List, [], ◌∷◌, ◌==◌,
  if◌then◌else◌, ltb, is_empty,
}
use playbook_harness.Text.{Text, within}

abbrev pub Version : Type 0
Version = List ℕ

abbrev pub is_digit : ℕ → Bool
is_digit c = within b'0' b'9' c

abbrev pub shift : ℕ → ℕ → ℕ
shift value c = 10 * value + (c - b'0')

abbrev pub starts_digit : Text → Bool
starts_digit [] = false
starts_digit (c ∷ t) = is_digit c

-- The parts of a number that stands at `value` so far: its digits, and those of the parts that
-- follow a dot and begin with a digit.
unfoldable pub parts_from : ℕ → Text → Version
parts_from value [] = value ∷ []
parts_from value (c ∷ t) =
    let same = parts_from (shift value c) t in
    let next = parts_from 0 t in
    if is_digit c then same else if c == b'.' && starts_digit t then value ∷ next else value ∷ []

abbrev pub at_least_two : Version → Bool
at_least_two (a ∷ b ∷ v) = true
at_least_two _ = false

-- `_VERSION_RE.search`, with the parts of the match; the flag says that a digit stands before.
unfoldable pub search_version : Bool → Text → Option Version
search_version after_digit [] = none
search_version after_digit (c ∷ t) =
    let later = search_version (is_digit c) t in
    let here = parts_from 0 (c ∷ t) in
    if not after_digit && (is_digit c && at_least_two here) then some here else later

unfoldable pub parse_version : Text → Option Version
parse_version output = search_version false output

-- `actual >= minimum`, of tuples that are filled up with zeros to one length.
unfoldable pub version_at_least : Version → Version → Bool
version_at_least [] [] = true
version_at_least (a ∷ v) [] = let rest = version_at_least v [] in if a == 0 then rest else true
version_at_least [] (b ∷ w) = let rest = version_at_least [] w in if b == 0 then rest else false
version_at_least (a ∷ v) (b ∷ w) =
    let rest = version_at_least v w in if a == b then rest else ltb b a

-- `DetectionStatus`
pub data DetectionStatus : Type 0 where
  supported absent unsupported : DetectionStatus

-- No executable, a probe that timed out or failed, or its output with its exit code, or with the
-- number of the signal that ended it, whose negative is the return code then.
pub data Probe : Type 0 where
  no_executable not_run : Probe
  answered killed_by : ℕ → Text → Probe

abbrev pub status_of_version : Version → Option Version → DetectionStatus
status_of_version minimum none = unsupported
status_of_version minimum (some v) = if version_at_least v minimum then supported else unsupported

-- The status that `detect_providers` gives one provider.
unfoldable pub detect : Version → Probe → DetectionStatus
detect minimum no_executable = absent
detect minimum not_run = unsupported
detect minimum (killed_by signal output) = unsupported
detect minimum (answered code output) =
    if not (code == 0) then unsupported else status_of_version minimum (parse_version output)
