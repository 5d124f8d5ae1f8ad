-- ===== src/HashCache/Tests.antt =====
-- A disk with one file, and the theorems on libs/hash-cache/src/lib.rs at it.
use hack_arena3_0_backend.Common.Dict.{get, string_eq}
use hack_arena3_0_backend.HashCache.Cache.{
  mtime_secs, CacheApi, HashCache, sidecar_bytes, check_sidecar, get_or_compute,
}
use hack_arena3_0_backend.Common.Int.{ℤ, pos}
use hack_arena3_0_backend.Common.{ℕ, zero, suc, ◌≡◌, refl, List, [], ◌∷◌, none, some, ok}
use hack_arena3_0_backend.HashCache.Sidecars.{AsciiLaw, written-unread, second-cached}

abbrev repeat : ℕ → List ℕ
repeat zero = []
repeat (suc n) = 7 ∷ repeat n

-- A disk is the time of change of its file, which holds two bytes.
instance abbrev toy_cache : CacheApi
toy_cache = record {
  Disk = ℤ;
  IoError = ℕ;
  metadata = λ path disk. ok (some disk, 2);
  read = λ path disk. ok (1 ∷ 2 ∷ []);
  replace = λ path bytes disk. disk;
  sidecar_path_for = λ path. none;
  sha256 = λ bytes. repeat 32;
  from_utf8_lossy = λ bytes. bytes;
}

toy_ascii : AsciiLaw
toy_ascii = record { kept = λ bytes a. refl }

written-unread_example :
    check_sidecar (sidecar_bytes (pos 5000000000) 2 (repeat 32)) (pos 5000000000) 2 ≡ none
written-unread_example =
    written-unread toy_ascii (repeat 32) (pos 5000000000) 2 (pos 5000000000) 2 refl

abbrev empty_cache : HashCache
empty_cache = record { mem = []; disk = pos 5000000000 }

second-cached_example :
    let later : HashCache = record {
      mem = (get_or_compute "map.glb" (λ disk. disk) empty_cache).1.mem;
      disk = pos 5000000000;
    } in
    get_or_compute "map.glb" (λ disk. disk) later ≡ (ok (repeat 32), later)
unfolding mtime_secs get_or_compute get
second-cached_example =
    second-cached "map.glb" (λ disk. disk) 2 (repeat 32) (some (pos 5000000000)) empty_cache
      (λ disk. disk) (pos 5000000000) refl refl refl refl refl
