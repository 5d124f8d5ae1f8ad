-- ===== src/Native/Version.antt =====
-- game-engine/boink/src/native/version.rs: the check of the version of the native library, with the
-- status codes of game-engine/boink/src/error.rs. The library is a parameter.
use hack_arena3_0_backend.Common.Int.{ℤ, pos, negsuc}
use hack_arena3_0_backend.Common.{
  ℕ, Bool, true, false, not, String, if◌then◌else◌, ltb, leb, ◌==◌, Result, ok, err,
}

pub record Version : Type 0 where
  pub major : ℕ
  pub minor : ℕ
  pub patch : ℕ

-- What a call of the library may report as an error. The text of an internal error is that of the
-- name of the function.
pub data Error : Type 0 where
  no_data condition_not_met invalid_arg buffer_too_small not_found unsupported_format io : Error
  internal : String → Error
  ffi_status : ℤ → String → Error
  incompatible_version : Version → Version → Error

-- The status of a call of the library, and the three numbers that it wrote.
pub record VersionApi : Type 0 where
  pub boink_get_c_api_version : ℤ × Version

unfoldable pub from_ffi_status : ℤ → String → Error
from_ffi_status (pos code) func =
    if code == 1
    then Error.no_data
    else if code == 2
    then Error.condition_not_met
    else Error.ffi_status (pos code) func
from_ffi_status (negsuc n) func =
    if n == 0
    then Error.invalid_arg
    else if n == 1
    then Error.buffer_too_small
    else if n == 2
    then Error.not_found
    else if n == 3
    then Error.unsupported_format
    else if n == 4
    then Error.io
    else if n == 99
    then Error.internal func
    else Error.ffi_status (negsuc n) func

unfoldable pub is_boink_ok : ℤ → Bool
is_boink_ok (pos code) = code == 0
is_boink_ok (negsuc _) = false

abbrev pub required_c_api_version : Version
required_c_api_version = record { major = 1; minor = 0; patch = 0 }

abbrev pub min_legacy_c_api_version : Version
min_legacy_c_api_version = record { major = 0; minor = 17; patch = 7 }

unfoldable pub query_c_api_version : VersionApi → Result Error Version
unfolding is_boink_ok from_ffi_status
query_c_api_version api =
    let (code, version) = api.boink_get_c_api_version in
    if is_boink_ok code then ok version else err (from_ffi_status code "boink_get_c_api_version")

unfoldable pub is_compatible : Version → Version → Bool
is_compatible required actual =
    if not (actual.major == required.major)
    then false
    else if ltb required.minor actual.minor
    then true
    else if ltb actual.minor required.minor
    then false
    else leb required.patch actual.patch

-- Both builds: `required` is the version that the build asks for.
unfoldable pub ensure_compatible : Version → VersionApi → Result Error (Unit {0})
unfolding query_c_api_version is_compatible
ensure_compatible required api = elim (query_c_api_version api) [
  | err e ↦ err e
  | ok actual ↦
      if is_compatible required actual
      then ok tt
      else err (Error.incompatible_version required actual)
]

unfoldable pub ensure_c_api_compatible : VersionApi → Result Error (Unit {0})
unfolding ensure_compatible
ensure_c_api_compatible = ensure_compatible required_c_api_version

unfoldable pub ensure_c_api_compatible_legacy : VersionApi → Result Error (Unit {0})
unfolding ensure_compatible
ensure_c_api_compatible_legacy = ensure_compatible min_legacy_c_api_version
