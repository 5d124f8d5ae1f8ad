-- ===== src/HashCache/Sidecars.antt =====
-- What libs/hash-cache/src/lib.rs finds again in memory and in its sidecar files.
use hack_arena3_0_backend.Common.Dict
use hack_arena3_0_backend.Common.Dict.{Dict, string_eq, get-insert}
use hack_arena3_0_backend.Common.Int.{ℤ, pos, negsuc}
use hack_arena3_0_backend.Common.{
  ℕ, zero, suc, ◌+◌, ◌%◌, ◌/◌, ◌<◌, ◌≡◌, refl, subst, ap, ◌∙◌, true, false, List, [], ◌∷◌, ◌++◌,
  Option, none, some, String, Result, ok, err, arith, length, is_some, All, trim_start, trim_end,
  =ₛ_iff,
}
use hack_arena3_0_backend.HashCache.Cache.{
  CacheApi, HashCache, mtime_secs, both_same, same_mtime, split_lines, parse_u64, number_of,
  first_line, is_number, drop, digits, to_string, sidecar_bytes, check_lines, check_sidecar, fresh,
  remember, write_sidecar, settle, compute, from_sidecar, from_memory, look_up, get_or_compute,
  sha256_len,
}
use mathlib.Core.Option.{get_or}

-- ASCII text.
abbrev pub Ascii : List ℕ → Type 0
Ascii = All (λ c. c < 128)

append-Ascii : (xs ys : List ℕ) → Ascii xs → Ascii ys → Ascii (xs ++ ys)
append-Ascii [] ys a b = b
append-Ascii (x ∷ xs) ys a b = (a.0, append-Ascii xs ys a.1 b)

digits-Ascii : (fuel n : ℕ) (behind : List ℕ) → Ascii behind → Ascii (digits fuel n behind)
unfolding digits
digits-Ascii zero n behind a = a
digits-Ascii (suc fuel) n behind a =
    let here : Ascii ((b'0' + n % 10) ∷ behind) = (omega arith, a) in
    ground (arith, here, digits-Ascii fuel (n / 10) ((b'0' + n % 10) ∷ behind) here)

drop-append : (n : ℕ) (xs ys : List ℕ) → length xs ≡ n → drop n (xs ++ ys) ≡ ys
unfolding drop
drop-append zero [] ys h = refl
drop-append zero (x ∷ xs) ys h = ground (arith, h)
drop-append (suc n) [] ys h = ground (arith, h)
drop-append (suc n) (x ∷ xs) ys h = drop-append n xs ys (omega (arith, h))

-- What `String::from_utf8_lossy` documents: ASCII is decoded to itself.
pub record AsciiLaw ⦃api : CacheApi⦄ : Type 0 where
  pub kept : (bytes : List ℕ) → Ascii bytes → api.from_utf8_lossy bytes ≡ bytes

module _ ⦃api : CacheApi⦄ where
  no_size :
      (cs : List ℕ) (size : ℕ)
      → is_number (number_of (first_line (split_lines (b'\n' ∷ cs)))) size ≡ false
  unfolding is_number number_of first_line split_lines parse_u64 trim_start trim_end
  no_size cs size = refl

  no_lines :
      (cs : List ℕ) (mtime_now : ℤ) (size_now : ℕ)
      → check_lines (split_lines (b'\n' ∷ cs)) mtime_now size_now ≡ false
  unfolding check_lines
  no_lines cs mtime_now size_now = ground (arith, no_size cs size_now)

  refused :
      (bytes : List ℕ) (mtime_now : ℤ) (size_now : ℕ)
      → check_lines (split_lines (api.from_utf8_lossy (drop sha256_len bytes))) mtime_now size_now
        ≡ false
      → check_sidecar bytes mtime_now size_now ≡ none
  unfolding check_sidecar
  refused bytes mtime_now size_now h = ground (arith, h)

  -- No sidecar that the cache writes is accepted when it is read, for whatever size and time the
  -- file has then: the line of the size is taken to be the one in front of the first line feed.
  pub written-unread :
      (law : AsciiLaw) (hash : List ℕ) (mtime : ℤ) (size : ℕ) (mtime_now : ℤ) (size_now : ℕ)
      → length hash ≡ sha256_len
      → check_sidecar (sidecar_bytes mtime size hash) mtime_now size_now ≡ none
  unfolding sidecar_bytes to_string
  written-unread law hash mtime size mtime_now size_now h =
      let tail = b'\n' ∷ (to_string size ++ (b'\n' ∷ to_string (get_or (mtime_secs mtime) 0))) in
      let ascii : Ascii tail = (
        omega arith,
        append-Ascii (to_string size) _ (digits-Ascii 20 size [] tt)
            (omega arith, digits-Ascii 20 (get_or (mtime_secs mtime) 0) [] tt),
      ) in
      let decoded : api.from_utf8_lossy (drop sha256_len (hash ++ tail)) ≡ tail =
        ap api.from_utf8_lossy (drop-append 32 hash tail h) ∙ law.kept tail ascii in
      refused (hash ++ tail) mtime_now size_now (
        ap (λ text. check_lines (split_lines text) mtime_now size_now) decoded
        ∙ no_lines _ mtime_now size_now)

  same_self : (t : ℤ) → is_some (mtime_secs t) ≡ true → same_mtime t t ≡ true
  unfolding same_mtime both_same mtime_secs
  same_self (pos n) h = ground arith
  same_self (negsuc n) h = ground (arith, h)

  remember-fresh :
      (path : String) (mtime : ℤ) (size : ℕ) (hash : List ℕ) (c : HashCache)
      → is_some (mtime_secs mtime) ≡ true
      → fresh (Dict.get path (remember path mtime size hash c).mem) mtime size ≡ some hash
  unfolding remember fresh
  remember-fresh path mtime size hash c h =
      let found : Dict.get path (Dict.insert path (mtime, size, hash) c.mem)
          ≡ some (mtime, size, hash) =
        get-insert path path (mtime, size, hash) c.mem ∙ ground (arith, =ₛ_iff path path) in
      rw (found, same_self mtime h) (ground arith)

  -- What a call leaves in memory for a path.
  abbrev Kept : String → ℤ → ℕ → List ℕ → HashCache → Type 0
  Kept path mtime size h c = fresh (Dict.get path c.mem) mtime size ≡ some h

  settle-Kept :
      (path : String) (size : ℕ) (hash h : List ℕ) (modified : Option ℤ) (c : HashCache)
      → is_some (mtime_secs (get_or modified (pos 0))) ≡ true
      → let out = settle path (get_or modified (pos 0)) size hash (ok (modified, size)) c in
        out.0 ≡ ok h → Kept path (get_or modified (pos 0)) size h out.1
  unfolding settle
  settle-Kept path size hash h modified c t r =
      let mtime = get_or modified (pos 0) in
      let same = same_self mtime t in
      ground (
        arith,
        r,
        same,
        remember-fresh path mtime size hash
            (record c { disk = write_sidecar path mtime size hash c.disk }) t,
      )

  compute-Kept :
      (path : String) (size : ℕ) (read : Result api.IoError (List ℕ)) (h : List ℕ)
      (modified : Option ℤ) (c : HashCache)
      → api.metadata path c.disk ≡ ok (modified, size)
      → is_some (mtime_secs (get_or modified (pos 0))) ≡ true
      → (compute path (get_or modified (pos 0)) size read c).0 ≡ ok h
      → Kept path
          (get_or modified (pos 0))
          size
          h
          (compute path (get_or modified (pos 0)) size read c).1
  unfolding compute
  compute-Kept path size (err e) h modified c m t r = ground (arith, r)
  compute-Kept path size (ok bytes) h modified c m t r =
      rw m (settle-Kept path size (api.sha256 bytes) h modified c t (rw m at r))

  sidecar-Kept :
      (path : String) (meanwhile : api.Disk → api.Disk) (size : ℕ) (found : Option (List ℕ))
      (h : List ℕ) (modified : Option ℤ) (c : HashCache)
      → api.metadata path (meanwhile c.disk) ≡ ok (modified, size)
      → is_some (mtime_secs (get_or modified (pos 0))) ≡ true
      → let out = from_sidecar path meanwhile (get_or modified (pos 0)) size found c in
        out.0 ≡ ok h → Kept path (get_or modified (pos 0)) size h out.1
  unfolding from_sidecar
  sidecar-Kept path meanwhile size (some bytes) h modified c m t r =
      let same : bytes ≡ h = ground (arith, r) in
      subst
        (λ x.
          Kept path (get_or modified (pos 0)) size x
            (remember path (get_or modified (pos 0)) size bytes c))
        same (remember-fresh path (get_or modified (pos 0)) size bytes c t)
  sidecar-Kept path meanwhile size none h modified c m t r =
      compute-Kept path size (api.read path (meanwhile c.disk)) h modified
        (record c { disk = meanwhile c.disk }) m t r

  memory-Kept :
      (path : String) (meanwhile : api.Disk → api.Disk) (size : ℕ) (found : Option (List ℕ))
      (h : List ℕ) (modified : Option ℤ) (c : HashCache)
      → fresh (Dict.get path c.mem) (get_or modified (pos 0)) size ≡ found
      → api.metadata path (meanwhile c.disk) ≡ ok (modified, size)
      → is_some (mtime_secs (get_or modified (pos 0))) ≡ true
      → let out = from_memory path meanwhile (get_or modified (pos 0)) size found c in
        out.0 ≡ ok h → Kept path (get_or modified (pos 0)) size h out.1
  unfolding from_memory
  memory-Kept path meanwhile size (some hash) h modified c e m t r = ground (arith, e, r)
  memory-Kept path meanwhile size none h modified c e m t r =
      sidecar-Kept path meanwhile size _ h modified c m t r

  served :
      (path : String) (meanwhile : api.Disk → api.Disk) (size : ℕ) (h : List ℕ)
      (modified : Option ℤ) (c : HashCache)
      → api.metadata path c.disk ≡ ok (modified, size)
      → Kept path (get_or modified (pos 0)) size h c
      → get_or_compute path meanwhile c ≡ (ok h, c)
  unfolding get_or_compute look_up from_memory
  served path meanwhile size h modified c m k = rw (m, k) refl

  -- Once a file has an answer, and was not changed while it was hashed, every later call at the
  -- same size and time of change, not before the epoch, gives the same answer from memory,
  -- whatever the disk holds, and changes nothing.
  pub second-cached :
      (path : String) (meanwhile : api.Disk → api.Disk) (size : ℕ) (h : List ℕ)
      (modified : Option ℤ) (c : HashCache) (meanwhile2 : api.Disk → api.Disk) (disk2 : api.Disk)
      → api.metadata path c.disk ≡ ok (modified, size)
      → api.metadata path (meanwhile c.disk) ≡ ok (modified, size)
      → is_some (mtime_secs (get_or modified (pos 0))) ≡ true
      → (get_or_compute path meanwhile c).0 ≡ ok h
      → api.metadata path disk2 ≡ ok (modified, size)
      → let later : HashCache = record {
        mem = (get_or_compute path meanwhile c).1.mem;
        disk = disk2;
      } in
        get_or_compute path meanwhile2 later ≡ (ok h, later)
  unfolding get_or_compute look_up
  second-cached path meanwhile size h modified c meanwhile2 disk2 m1 m2 t r m3 =
      let kept = memory-Kept path meanwhile size _ h modified c refl m2 t (rw m1 at r) in
      served path meanwhile2 size h modified _ m3 (rw m1 kept)
