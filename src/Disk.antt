-- ===== src/Disk.antt =====
-- The files that the stores live in, as Go's os package gives them: uefi.go, readStoreFile, with
-- os.Open, File.Stat, io.ReadAll and os.WriteFile. What the operating system does to each of these
-- in turn is an input, the list of fates.
use uefi.Base.{
  ℕ, ◌+◌, ◌-◌, ◌^◌, ◌<◌, ◌≤◌, ◌≡◌, refl, Bool, true, false, List, [], ◌∷◌, Option, some, none,
  Bytes, eq_bytes, ltb, leb, length, take, if◌then◌else◌, arith,
}
use uefi.Base.{Result, ok, err, not_exist, os_error, too_large, le→ltb, take_all}

-- One call: it works; it works but Stat fails; it fails at once; or it fails after so many bytes.
pub data Fate : Type 0 where
  works no_stat refused : Fate
  interrupted : ℕ → Fate

pub record Disk : Type 0 where
  pub files : Bytes → Option Bytes
  pub fates : List Fate

abbrev pub next_fate : List Fate → Fate
next_fate [] = works
next_fate (f ∷ _) = f

abbrev pub later : List Fate → List Fate
later [] = []
later (_ ∷ fs) = fs

-- The greatest int64, and what io.LimitReader(f, max+1) lets through: `max+1` is an int64, and
-- where it wraps to a negative number nothing is read.
abbrev pub max_int64 : ℕ
max_int64 = 2 ^ 63 - 1

unfoldable pub limited : ℕ → Bytes → Bytes
limited max content = if leb max_int64 max then [] else take (max + 1) content

-- The two size checks around the read.
unfoldable pub read_within : Bool → ℕ → Bytes → Result Bytes
unfolding limited
read_within sized max content =
    if (if sized then ltb max (length content) else false)
    then err too_large
    else (let got = limited max content in if ltb max (length got) then err too_large else ok got)

unfoldable pub read_opened : Fate → ℕ → Option Bytes → Result Bytes
unfolding read_within
read_opened refused max file = err os_error
read_opened (interrupted n) max file = err os_error
read_opened works max none = err not_exist
read_opened works max (some content) = read_within true max content
read_opened no_stat max none = err not_exist
read_opened no_stat max (some content) = read_within false max content

-- readStoreFile
unfoldable pub read_store_file : Bytes → ℕ → Disk → Result Bytes × Disk
unfolding read_opened
read_store_file path max d =
    (read_opened (next_fate d.fates) max (d.files path), record d { fates = later d.fates })

abbrev pub put_file : Bytes → Bytes → Disk → Disk
put_file path content d = record d {
  files = λ p. if eq_bytes p path then some content else d.files p;
}

-- os.WriteFile truncates the file and then writes.
unfoldable pub write_as : Fate → Bytes → Bytes → Disk → Result (Unit {0}) × Disk
write_as works path content d = (ok tt, put_file path content d)
write_as no_stat path content d = (ok tt, put_file path content d)
write_as refused path content d = (err os_error, d)
write_as (interrupted n) path content d = (err os_error, put_file path (take n content) d)

unfoldable pub write_file : Bytes → Bytes → Disk → Result (Unit {0}) × Disk
unfolding write_as
write_file path content d =
    write_as (next_fate d.fates) path content (record d { fates = later d.fates })

-- A file within the limit is read whole, whatever Stat says; a longer one is refused.
pub read_within_ok :
    (sized : Bool) (max : ℕ) (content : Bytes)
    → length content ≤ max
    → max < max_int64
    → read_within sized max content ≡ ok content
unfolding read_within limited
read_within_ok sized max content h small =
    let whole = take_all (max + 1) content (omega arith) in
    let in_range : leb max_int64 max ≡ false = ground arith in
    rw (in_range, whole, le→ltb max (length content) h) (no_refusal sized)
  where
    no_refusal :
        (sized : Bool)
        → (if (if sized then false else false) then err too_large else ok content) ≡ ok content
    no_refusal true = refl
    no_refusal false = refl
