-- ===== src/Store.antt =====
-- uefi.go: opening a store file, and the operations on an open store. A session is the store in
-- memory with the disk.
pub mod Map
pub mod Prefix
pub mod Rewrite
pub mod Flushed
pub mod Reopen
pub mod Opened
pub mod Distinct
pub mod Sound
pub mod Opening
pub mod Steps
pub mod Saved
pub mod Committed
pub mod Contents
pub mod Cut
pub mod Remains
pub mod Torn
pub mod Recovered
pub mod Limit
use uefi.Base.{
  ℕ, zero, suc, ◌+◌, ◌-◌, ◌*◌, ◌%◌, Bool, true, false, not, Option, some, none, List, [], ◌∷◌, ◌++◌,
  Bytes,
}
use uefi.Base.{
  Result, ok, err, panic, out_of_fuel, guard, ◌>>=◌, ◌>>◌, slice, index, uint32, ltb, leb, ◌==◌,
  length, copy_at, if◌then◌else◌,
}
use uefi.Base.{
  not_exist, file_too_small, bad_signature, not_formatted, not_healthy, store_beyond_file,
  store_full,
}
use uefi.Safeio.{Safeio}
use uefi.Variable.{
  u32_mod, Guid, guid_of, eq_guid, Variable, is_named, efi_variable_guid,
  efi_authenticated_variable_guid, efi_system_nv_data_fv_guid, fv_header_size, store_header_size,
  fv_signature, store_formatted, store_healthy,
}
use uefi.Walk.{parse_variables, serialize_vars}
use uefi.Disk.{Disk, read_store_file, write_file}

-- Limits are taken to be natural numbers.
pub record Limits : Type 0 where
  pub max_file_size : ℕ
  pub max_variables : ℕ

abbrev pub default_max_file_size : ℕ
default_max_file_size = 256 * 1048576

abbrev pub default_max_variables : ℕ
default_max_variables = 65536

-- Limits.resolve
unfoldable pub resolve : Limits → Limits
resolve l = record {
  max_file_size = if l.max_file_size == 0 then default_max_file_size else l.max_file_size;
  max_variables = if l.max_variables == 0 then default_max_variables else l.max_variables;
}

-- The flavour and the place of the store in its file, which stay what they were at Open.
pub record Layout : Type 0 where
  pub fv_wrapped : Bool
  pub auth_vars : Bool
  pub store_off : ℕ
  pub store_size : ℕ

pub record Store : Type 0 where
  pub path : Bytes
  pub lim : Limits
  pub vars : List Variable
  pub layout : Layout
  pub open layout use *

-- detectFvWrap
unfoldable pub detect_fv_wrap : Bytes → Result Bool
detect_fv_wrap buf = if ltb (length buf) fv_header_size then ok false else (do
  raw ← slice buf 16 32
  if not (eq_guid (guid_of raw) efi_system_nv_data_fv_guid)
      then ok false
      else (do sig ← slice buf 40 44; word ← uint32 sig; ok (word == fv_signature)))

-- The `switch sig` of OpenLimits: whether the records are authenticated.
unfoldable pub read_signature : Guid → Result Bool
read_signature sig =
    if eq_guid sig efi_authenticated_variable_guid
    then ok true
    else if eq_guid sig efi_variable_guid
    then ok false
    else err bad_signature

-- The NvVar store header, with its size clamped to the file.
unfoldable pub read_store_header : Bytes → Bool → Result Layout
unfolding read_signature
read_store_header buf wrapped =
    let off = if wrapped then fv_header_size else 0 in
    do
      guard (leb (off + store_header_size) (length buf)) file_too_small
      raw ← slice buf off (off + 16)
      auth ← read_signature (guid_of raw)
      format ← index buf (off + 20)
      guard (format == store_formatted) not_formatted
      state ← index buf (off + 21)
      guard (state == store_healthy) not_healthy
      word ← slice buf (off + 16) (off + 20)
      size ← uint32 word
      let avail = length buf - off
      ok (record {
        fv_wrapped = wrapped;
        auth_vars = auth;
        store_off = off;
        store_size = if ltb avail size then avail % u32_mod else size;
      })

-- OpenLimits up to the header's clamped size.
unfoldable pub read_layout : Bytes → Result Layout
unfolding detect_fv_wrap read_store_header
read_layout buf = detect_fv_wrap buf >>= read_store_header buf

-- What OpenLimits makes of a file's bytes.
unfoldable pub open_bytes : Safeio → Bytes → Limits → Bytes → Result Store
unfolding read_layout
open_bytes io path lim buf = do
  lay ← read_layout buf
  vars ← parse_variables io buf lay.store_off lay.store_size lay.auth_vars lim.max_variables
  ok (record { path = path; lim = lim; vars = vars; layout = lay })

-- OpenLimits, and Open.
unfoldable pub open_limits : Safeio → Bytes → Limits → Disk → Result Store × Disk
unfolding open_bytes resolve
open_limits io path limits d =
    let lim = resolve limits in
    let (read, d') = read_store_file path lim.max_file_size d in
    (read >>= open_bytes io path lim, d')

unfoldable pub open_store : Safeio → Bytes → Disk → Result Store × Disk
unfolding open_limits
open_store io path d = open_limits io path (record { max_file_size = 0; max_variables = 0 }) d

-- `for i := lo; i < lo+n; i++ { buf[i] = 0xFF }`
unfoldable pub erase : ℕ → ℕ → Bytes → Bytes
erase lo n [] = []
erase (suc lo) n (b ∷ bs) = b ∷ erase lo n bs
erase zero (suc n) (b ∷ bs) = 0xff ∷ erase zero n bs
erase zero zero (b ∷ bs) = b ∷ bs

-- buildStore
unfoldable pub build_store : Bytes → ℕ → ℕ → Bytes → Result Bytes
unfolding erase
build_store orig store_off store_size payload =
    let header_end = store_off + store_header_size in
    let end64 = store_off + store_size in
    do
      guard (leb end64 (length orig)) store_beyond_file
      guard (leb (header_end + length payload) end64) store_full
      ok (copy_at (erase header_end (end64 - header_end) orig) header_end payload)

abbrev pub Session : Type 0
Session = Store × Disk

-- The end of flush: the store takes the variables over, and the file is written.
unfoldable pub commit : List Variable → Store → Disk → Result Bytes → Session × Result (Unit {0})
commit vars s d (ok buf) =
    let (written, d') = write_file s.path buf d in ((record s { vars = vars }, d'), written)
commit vars s d (err e) = ((s, d), err e)
commit vars s d panic = ((s, d), panic)
commit vars s d out_of_fuel = ((s, d), out_of_fuel)

-- The bytes that flush writes over `orig`.
unfoldable pub rewrite : List Variable → Store → Bytes → Result Bytes
unfolding build_store
rewrite vars s orig = do
  guard (leb (s.store_off + store_header_size) (length orig)) file_too_small
  build_store orig s.store_off s.store_size (serialize_vars s.auth_vars vars)

-- flush
unfoldable pub flush : List Variable → Session → Session × Result (Unit {0})
unfolding commit rewrite
flush vars (s, d) =
    let (read, d') = read_store_file s.path s.lim.max_file_size d in
    commit vars s d' (read >>= rewrite vars s)

-- Close
abbrev pub close : Session → Result (Unit {0})
close (s, d) = ok tt

-- List
unfoldable pub list : Session → List Variable
list (s, d) = s.vars

-- The loop of Get.
unfoldable pub find_var : List Variable → Bytes → Guid → Result Variable
find_var [] name guid = err not_exist
find_var (v ∷ vs) name guid =
    let rest = find_var vs name guid in if is_named v name guid then ok v else rest

unfoldable pub get : Session → Bytes → Guid → Result Variable
unfolding find_var
get (s, d) name guid = find_var s.vars name guid

-- The loop of Set: the variables with another name or GUID.
unfoldable pub others : Bytes → Guid → List Variable → List Variable
others name guid [] = []
others name guid (v ∷ vs) =
    let rest = others name guid vs in if is_named v name guid then rest else v ∷ rest

-- Set
unfoldable pub set : Session → Variable → Session × Result (Unit {0})
unfolding others
set (s, d) v = flush (others v.name v.guid s.vars ++ v ∷ []) (s, d)

-- The loop of Delete: whether it found the variable, and the others.
unfoldable pub split_off : Bytes → Guid → List Variable → Bool × List Variable
split_off name guid [] = (false, [])
split_off name guid (v ∷ vs) =
    let (found, rest) = split_off name guid vs in
    if is_named v name guid then (true, rest) else (found, v ∷ rest)

unfoldable pub delete_found : Session → Bool × List Variable → Session × Result (Unit {0})
delete_found s (true, rest) = flush rest s
delete_found s (false, rest) = (s, err not_exist)

-- Delete
unfoldable pub delete : Session → Bytes → Guid → Session × Result (Unit {0})
unfolding split_off delete_found
delete (s, d) name guid = delete_found (s, d) (split_off name guid s.vars)
