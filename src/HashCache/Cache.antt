-- ===== src/HashCache/Cache.antt =====
-- libs/hash-cache/src/lib.rs: the hash of a file comes from memory, from a sidecar file or from the
-- file. The lock of a path is held during a call, so that one call is one step; `meanwhile` is what
-- others do to the disk while the file is hashed. A path is its normal form as a string, a time is
-- in nanoseconds from the epoch, and bytes are numbers.
use hack_arena3_0_backend.Common.Dict
use hack_arena3_0_backend.Common.Dict.{Dict, string_eq}
use hack_arena3_0_backend.Common.Int.{ℤ, pos, negsuc}
use hack_arena3_0_backend.Common.{
  ℕ, zero, suc, ◌+◌, ◌-◌, ◌*◌, ◌/◌, ◌%◌, ◌^◌, Bool, false, not, ◌&&◌, ◌||◌, List, [], ◌∷◌, ◌++◌,
  Option, none, some, String, Result, ok, err, if◌then◌else◌, length, is_empty, ltb, leb, ◌==◌,
  u64_max, trim_start, trim_end,
}
use mathlib.Core.Option.{get_or}

-- The file system, SHA-256 and `String::from_utf8_lossy`. Writing a sidecar goes through a
-- temporary file, and whether it succeeds is of no interest to the caller.
pub record CacheApi : Type 1 where
  pub Disk : Type 0
  pub IoError : Type 0
  pub metadata : String → Disk → Result IoError (Option ℤ × ℕ)
  pub read : String → Disk → Result IoError (List ℕ)
  pub replace : String → List ℕ → Disk → Disk
  pub sidecar_path_for : String → Option String
  pub sha256 : List ℕ → List ℕ
  pub from_utf8_lossy : List ℕ → List ℕ

abbrev pub sha256_len : ℕ
sha256_len = 32

-- Times before the epoch have no seconds.
unfoldable pub mtime_secs : ℤ → Option ℕ
mtime_secs (pos n) = some (n / 10 ^ 9)
mtime_secs (negsuc n) = none

unfoldable pub both_same : Option ℕ → Option ℕ → Bool
both_same none y = false
both_same (some x) none = false
both_same (some x) (some y) = x == y

unfoldable pub same_mtime : ℤ → ℤ → Bool
unfolding both_same
same_mtime a b = both_same (mtime_secs a) (mtime_secs b)

-- `split('\n')`: there is one line more than there are line feeds.
unfoldable pub split_lines : List ℕ → List (List ℕ)
split_lines [] = [] ∷ []
split_lines (c ∷ cs) =
    let rest = split_lines cs in
    if c == b'\n'
    then [] ∷ rest
    else elim rest [ [] ↦ (c ∷ []) ∷ [] | line ∷ lines ↦ (c ∷ line) ∷ lines ]

-- `str::parse::<u64>`: digits, after a `+` if there is one, of a number in range.
unfoldable pub parse_digits : ℕ → List ℕ → Option ℕ
parse_digits n [] = some n
parse_digits n (c ∷ cs) =
    let rest = parse_digits (n * 10 + (c - b'0')) cs in
    if leb b'0' c && leb c b'9' && leb (n * 10 + (c - b'0')) u64_max then rest else none

unfoldable pub parse_u64 : List ℕ → Option ℕ
unfolding parse_digits
parse_u64 [] = none
parse_u64 (c ∷ cs) =
    if c == b'+' then (if is_empty cs then none else parse_digits 0 cs) else parse_digits 0 (c ∷ cs)

-- The number of a line, if there is the line and it is one.
unfoldable pub number_of : Option (List ℕ) → Option ℕ
unfolding parse_u64
number_of none = none
number_of (some line) = parse_u64 (trim_end (trim_start line))

unfoldable pub first_line : List (List ℕ) → Option (List ℕ)
first_line [] = none
first_line (line ∷ lines) = some line

unfoldable pub later_lines : List (List ℕ) → List (List ℕ)
later_lines [] = []
later_lines (line ∷ lines) = lines

unfoldable pub is_number : Option ℕ → ℕ → Bool
is_number none expected = false
is_number (some n) expected = n == expected

unfoldable pub is_time : Option ℕ → Option ℕ → Bool
is_time none now = false
is_time (some secs) none = false
is_time (some secs) (some now_secs) = now_secs == secs

unfoldable pub drop {ℓ} : {A : Type ℓ} → ℕ → List A → List A
drop zero xs = xs
drop (suc n) [] = []
drop (suc n) (x ∷ xs) = drop n xs

unfoldable pub take {ℓ} : {A : Type ℓ} → ℕ → List A → List A
take zero xs = []
take (suc n) [] = []
take (suc n) (x ∷ xs) = x ∷ take n xs

-- `u64::to_string`: at most 20 digits, in front of those behind them.
unfoldable pub digits : ℕ → ℕ → List ℕ → List ℕ
digits zero n behind = behind
digits (suc fuel) n behind =
    let here = (b'0' + n % 10) ∷ behind in
    let rest = digits fuel (n / 10) here in if ltb n 10 then here else rest

unfoldable pub to_string : ℕ → List ℕ
unfolding digits
to_string n = digits 20 n []

-- What `write_sidecar` writes.
unfoldable pub sidecar_bytes : ℤ → ℕ → List ℕ → List ℕ
unfolding to_string
sidecar_bytes mtime size hash =
    hash ++ (b'\n' ∷ (to_string size ++ (b'\n' ∷ to_string (get_or (mtime_secs mtime) 0))))

-- The lines behind the hash are the size and the time of the file.
unfoldable pub check_lines : List (List ℕ) → ℤ → ℕ → Bool
unfolding number_of first_line later_lines is_number is_time
check_lines lines mtime_now size_now =
    is_number (number_of (first_line lines)) size_now
    && is_time (number_of (first_line (later_lines lines))) (mtime_secs mtime_now)

module _ ⦃api : CacheApi⦄ where
  -- What `try_read_sidecar` makes of the bytes.
  unfoldable pub check_sidecar : List ℕ → ℤ → ℕ → Option (List ℕ)
  unfolding take drop
  check_sidecar bytes mtime_now size_now =
      let lines = split_lines (api.from_utf8_lossy (drop sha256_len bytes)) in
      if ltb (length bytes) sha256_len
      then none
      else if check_lines lines mtime_now size_now
      then some (take sha256_len bytes)
      else none

  unfoldable pub try_read_sidecar : String → ℤ → ℕ → api.Disk → Option (List ℕ)
  unfolding check_sidecar
  try_read_sidecar path mtime_now size_now disk = elim (api.sidecar_path_for path) [
    | none ↦ none
    | some sidecar ↦ elim (api.read sidecar disk) [
      | err e ↦ none
      | ok bytes ↦ check_sidecar bytes mtime_now size_now
    ]
  ]

  unfoldable pub write_sidecar : String → ℤ → ℕ → List ℕ → api.Disk → api.Disk
  unfolding sidecar_bytes
  write_sidecar path mtime size hash disk = elim (api.sidecar_path_for path) [
    | none ↦ disk
    | some sidecar ↦ api.replace sidecar (sidecar_bytes mtime size hash) disk
  ]

  pub record HashCache : Type 0 where
    pub mem : Dict String (ℤ × ℕ × List ℕ)
    pub disk : api.Disk

  abbrev pub Answer : Type 0
  Answer = Result api.IoError (List ℕ) × HashCache

  -- The entry in memory, if it is fresh.
  unfoldable pub fresh : Option (ℤ × ℕ × List ℕ) → ℤ → ℕ → Option (List ℕ)
  unfolding same_mtime
  fresh none mtime size = none
  fresh (some (t, n, hash)) mtime size = if same_mtime t mtime && n == size then some hash else none

  unfoldable pub remember : String → ℤ → ℕ → List ℕ → HashCache → HashCache
  remember path mtime size hash c = record c { mem = Dict.insert path (mtime, size, hash) c.mem }

  -- The last part: the file was hashed, and is looked at again.
  unfoldable pub settle :
      String → ℤ → ℕ → List ℕ → Result api.IoError (Option ℤ × ℕ) → HashCache → Answer
  unfolding remember write_sidecar
  settle path mtime size hash (err e) c = (err e, c)
  settle path mtime size hash (ok (modified, size2)) c =
      let mtime2 = get_or modified (pos 0) in
      if not (same_mtime mtime mtime2) || not (size == size2) then (ok hash, c) else (
        ok hash,
        remember path mtime2 size2 hash
            (record c { disk = write_sidecar path mtime2 size2 hash c.disk }),
      )

  unfoldable pub compute : String → ℤ → ℕ → Result api.IoError (List ℕ) → HashCache → Answer
  unfolding settle
  compute path mtime size (err e) c = (err e, c)
  compute path mtime size (ok bytes) c =
      settle path mtime size (api.sha256 bytes) (api.metadata path c.disk) c

  unfoldable pub from_sidecar :
      String → (api.Disk → api.Disk) → ℤ → ℕ → Option (List ℕ) → HashCache → Answer
  unfolding remember compute
  from_sidecar path meanwhile mtime size (some bytes) c =
      (ok bytes, remember path mtime size bytes c)
  from_sidecar path meanwhile mtime size none c =
      let later : HashCache = record c { disk = meanwhile c.disk } in
      compute path mtime size (api.read path later.disk) later

  unfoldable pub from_memory :
      String → (api.Disk → api.Disk) → ℤ → ℕ → Option (List ℕ) → HashCache → Answer
  unfolding try_read_sidecar from_sidecar
  from_memory path meanwhile mtime size (some hash) c = (ok hash, c)
  from_memory path meanwhile mtime size none c =
      from_sidecar path meanwhile mtime size (try_read_sidecar path mtime size c.disk) c

  unfoldable pub look_up :
      String → (api.Disk → api.Disk) → Result api.IoError (Option ℤ × ℕ) → HashCache → Answer
  unfolding fresh from_memory
  look_up path meanwhile (err e) c = (err e, c)
  look_up path meanwhile (ok (modified, size)) c =
      let mtime = get_or modified (pos 0) in
      from_memory path meanwhile mtime size (fresh (Dict.get path c.mem) mtime size) c

  unfoldable pub get_or_compute : String → (api.Disk → api.Disk) → HashCache → Answer
  unfolding look_up
  get_or_compute path meanwhile c = look_up path meanwhile (api.metadata path c.disk) c

  unfoldable pub invalidate : String → HashCache → HashCache
  invalidate path c = record c { mem = Dict.remove path c.mem }
