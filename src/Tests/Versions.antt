-- ===== src/Tests/Versions.antt =====
-- Versions that commands print, and instances of the theorems on them.
use playbook_harness.Base.{◌≡◌, refl, true, some, [], ◌∷◌}
use playbook_harness.Text.{Text, codes}
use playbook_harness.Detection.{
  parts_from, search_version, Version, parse_version, version_at_least, answered, detect, supported,
}
use playbook_harness.Detection.Order.{Compared, version_at_least-Compared, detect-supported}

abbrev minimum : Version
minimum = 2 ∷ 1 ∷ 220 ∷ []

abbrev output : Text
output = codes "claude 7 v2.1.221-beta"

output-parsed : parse_version output ≡ some (2 ∷ 1 ∷ 221 ∷ [])
unfolding parse_version search_version parts_from
output-parsed = refl

version_at_least-Compared_example :
    Compared (2 ∷ 1 ∷ []) minimum (version_at_least (2 ∷ 1 ∷ []) minimum)
version_at_least-Compared_example = version_at_least-Compared (2 ∷ 1 ∷ []) minimum

output-supported : detect minimum (answered 0 output) ≡ supported
unfolding detect version_at_least parse_version search_version parts_from
output-supported = refl

detect-supported_example :
    (printed : Text) × (v : Version) × (answered 0 output ≡ answered 0 printed)
    × (parse_version printed ≡ some v)
    × Compared v minimum true
detect-supported_example = detect-supported minimum (answered 0 output) output-supported
