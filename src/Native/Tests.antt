-- ===== src/Native/Tests.antt =====
-- The version check of game-engine/boink at a library of version 1.2.0.
use hack_arena3_0_backend.Common.Int.{pos}
use hack_arena3_0_backend.Common.{◌≡◌, refl, ◌↔◌, true, ok, err}
use hack_arena3_0_backend.Native.Compatible.{Serves, ensure_compatible_iff}
use hack_arena3_0_backend.Native.Version.{
  VersionApi, Error, is_boink_ok, required_c_api_version, min_legacy_c_api_version,
  ensure_compatible, ensure_c_api_compatible, ensure_c_api_compatible_legacy,
}

abbrev library : VersionApi
library = record { boink_get_c_api_version = (pos 0, record { major = 1; minor = 2; patch = 0 }) }

ensure_compatible_iff_example : (ensure_compatible required_c_api_version library ≡ ok tt) ↔ (
    (is_boink_ok library.boink_get_c_api_version.0 ≡ true)
    × Serves required_c_api_version library.boink_get_c_api_version.1)
ensure_compatible_iff_example = ensure_compatible_iff required_c_api_version library

passes : ensure_c_api_compatible library ≡ ok tt
unfolding ensure_c_api_compatible
passes = refl

refused_legacy :
    ensure_c_api_compatible_legacy library
    ≡ err (Error.incompatible_version min_legacy_c_api_version library.boink_get_c_api_version.1)
unfolding ensure_c_api_compatible_legacy
refused_legacy = refl
