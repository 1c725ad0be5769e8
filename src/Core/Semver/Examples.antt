-- ===== src/Core/Semver/Examples.antt =====
-- Versions, parsed and compared.
use feature_flag_service.Common.{is_empty, ◌≡◌, refl, true, false, codes, [], some, cut, value_from}
use feature_flag_service.Core.Semver.{
  Semver, less, parse_semver, drop_build, split_pre, take_numeric_field, take_last_field,
  valid_dot_identifiers, compare_semver, compare_pre, compare_prerelease, compare_prerelease_fuel,
  next_identifier, compare_identifier, is_numeric_identifier, lex_compare,
}
use feature_flag_service.Core.Semver.Identifiers.{identifiers, compare_prerelease-eq}

-- 1.2.3-rc.2, 1.2.3-rc.10 and 1.2.3
abbrev second_candidate : Semver
second_candidate = record { major = 1; minor = 2; patch = 3; pre = codes "rc.2"; has_pre = true }

abbrev tenth_candidate : Semver
tenth_candidate = record second_candidate { pre = codes "rc.10" }

abbrev released : Semver
released = record second_candidate { pre = []; has_pre = false }

parsed_candidate : parse_semver (codes "1.2.3-rc.10+b7") ≡ some tenth_candidate
unfolding parse_semver drop_build split_pre take_numeric_field take_last_field cut
    valid_dot_identifiers value_from is_empty
parsed_candidate = refl

candidates_in_order : compare_semver second_candidate tenth_candidate ≡ less
unfolding compare_semver compare_pre compare_prerelease compare_prerelease_fuel next_identifier cut
    compare_identifier is_empty is_numeric_identifier
candidates_in_order = refl

candidate_released : compare_semver tenth_candidate released ≡ less
unfolding compare_semver compare_pre
candidate_released = refl

compare_prerelease-eq_example :
    compare_prerelease (codes "rc.2") (codes "rc.10")
    ≡ lex_compare compare_identifier (identifiers (codes "rc.2")) (identifiers (codes "rc.10"))
compare_prerelease-eq_example = compare_prerelease-eq (codes "rc.2") (codes "rc.10")

two_is_numeric : is_numeric_identifier (codes "2") ≡ true
unfolding is_numeric_identifier is_empty
two_is_numeric = refl

ten_is_numeric : is_numeric_identifier (codes "10") ≡ true
unfolding is_numeric_identifier is_empty
ten_is_numeric = refl
