-- ===== src/Native/Compatible.antt =====
-- The version check of game-engine/boink/src/native/version.rs, against the order of versions.
use hack_arena3_0_backend.Common.{◌≤◌, ◌<◌, ◌≡◌, ◌⊎◌, ◌↔◌, true, ok, arith}
use hack_arena3_0_backend.Native.Version.{
  Version, VersionApi, is_boink_ok, query_c_api_version, is_compatible, ensure_compatible,
}

-- One release line, and not an earlier version.
abbrev pub Serves : Version → Version → Type 0
Serves required actual =
    (actual.major ≡ required.major)
    × ((required.minor < actual.minor)
        ⊎ ((required.minor ≡ actual.minor) × (required.patch ≤ actual.patch)))

-- The test holds exactly of the versions with the major number that is asked for, and a later minor
-- number, or the same with no earlier patch.
is_compatible_iff :
    (required actual : Version) → (is_compatible required actual ≡ true) ↔ Serves required actual
unfolding is_compatible
is_compatible_iff required actual = ground arith

-- A version that serves what a serving version asks for serves the first.
is_compatible_trans :
    (a b c : Version)
    → is_compatible a b ≡ true
    → is_compatible b c ≡ true
    → is_compatible a c ≡ true
unfolding is_compatible
is_compatible_trans a b c h k = ground arith

-- The check of either build passes exactly when the library answers the question for its version
-- without error and the version serves the one that the build requires.
pub ensure_compatible_iff :
    (required : Version) (api : VersionApi)
    → (ensure_compatible required api ≡ ok tt) ↔ (
        (is_boink_ok api.boink_get_c_api_version.0 ≡ true)
        × Serves required api.boink_get_c_api_version.1)
unfolding ensure_compatible query_c_api_version
ensure_compatible_iff required api =
    let serves = is_compatible_iff required api.boink_get_c_api_version.1 in ground (arith, serves)
