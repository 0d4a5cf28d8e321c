-- ===== src/Examples/Sessions.antt =====
-- The theorems on opening a file, on a write that is cut off, and on the order of two Sets, at the
-- store of 256 bytes.
use uefi.Base.{
  arith, ◌≡◌, ◌⊎◌, ◌<◌, ◌≤◌, refl, sym, subst, ◌∙◌, ok, some, Bool, true, false, [], ◌∷◌, ◌&&◌,
  Bytes, IsByte, All, length, ltb, &&-eq-true, ltb→lt, Ensures,
}
use uefi.Base.{copy_at, eq_bytes}
use uefi.Safeio.{plain_safeio, plain_safeio-laws}
use uefi.Text.{encode_utf16le, put_units}
use uefi.Text.Utf8.{runes, runes_from, decode_rune}
use uefi.Text.Utf16.{utf16_encode}
use uefi.Variable.{Guid, Variable, efi_authenticated_variable_guid, IsStorable}
use uefi.VariableStore.{Differs}
use uefi.Record.{encode_variable, encode_header, align_up, pad_bytes}
use uefi.Walk.{serialize_vars}
use uefi.Walk.Torn.{whole_records}
use uefi.Disk.{works, interrupted, read_store_file, read_within, write_file, write_as}
use uefi.Store.{
  Session, Limits, resolve, open_limits, commit, rewrite, build_store, erase, get, find_var, others,
  set, flush, list,
}
use uefi.Store.Flushed.{Fits}
use uefi.Store.Reopen.{calm}
use uefi.Store.Sound.{Sound}
use uefi.Store.Opening.{open_limits-Ensures}
use uefi.Store.Cut.{clamped}
use uefi.Store.Committed.{Commits, unchanged, then_set, then_delete, open_limits-Commits}
use uefi.Base.{slice, index, uint16, uint32}
use uefi.Variable.{guid_of}
use uefi.Record.{parse_one_variable}
use uefi.Walk.{parse_variables, region_end, walk, walk_step}
use uefi.Disk.{read_opened}
use uefi.Store.{
  open_bytes, read_layout, read_store_header, read_signature, detect_fv_wrap, delete, delete_found,
  split_off,
}
use uefi.Store.Torn.{flush_torn_reopens}
use uefi.Store.Contents.{contents, set_comm}
use uefi.Format.{make_empty_store}
use uefi.Examples.{
  path, image, files, store, session, opened, there, variable, variable-IsStorable, name-IsUtf8,
}

abbrev pub no_limits : Limits
no_limits = record { max_file_size = 0; max_variables = 0 }

store-resolved : store.lim ≡ resolve no_limits
unfolding resolve
store-resolved = refl

unfoldable bytes_only : Bytes → Bool
bytes_only [] = true
bytes_only (b ∷ bs) = ltb b 256 && bytes_only bs

bytes_only→All : (bs : Bytes) → bytes_only bs ≡ true → All IsByte bs
unfolding bytes_only
bytes_only→All [] h = tt
bytes_only→All (b ∷ bs) h =
    let both = &&-eq-true (ltb b 256) (bytes_only bs) h in
    (ltb→lt b 256 both.0, bytes_only→All bs both.1)

image-bytes : bytes_only image ≡ true
unfolding bytes_only make_empty_store copy_at erase
image-bytes = refl

pub files-bytes : (file : Bytes) → files path ≡ some file → All IsByte file
files-bytes file e =
    let same : image ≡ file = cc (sym there ∙ e) in
    subst (All IsByte) same (bytes_only→All image image-bytes)

open_limits-Ensures_example :
    Ensures
      (λ s.
        Sound s (s, (open_limits plain_safeio path no_limits (calm files)).1)
        × (s.path ≡ path)
        × (s.lim ≡ resolve no_limits)
        × (length s.vars ≤ s.lim.max_variables))
      (open_limits plain_safeio path no_limits (calm files)).0
open_limits-Ensures_example =
    open_limits-Ensures plain_safeio plain_safeio-laws path no_limits (calm files) files-bytes tt
      (unfold resolve in omega arith)

pub image-opens : (open_limits plain_safeio path no_limits (calm files)).0 ≡ ok store
unfolding open_limits resolve read_store_file read_opened read_within open_bytes read_layout
    read_store_header read_signature detect_fv_wrap parse_variables region_end walk walk_step
    parse_one_variable slice index uint32 uint16 guid_of eq_bytes make_empty_store copy_at erase
image-opens = refl

-- A Set, a Delete of a variable that is not there, and a Delete of the one that is.
abbrev removed : Session
removed =
    (delete (delete (set session variable).0 (b'e' ∷ []) variable.guid).0 variable.name
      variable.guid).0

removed-Commits : Commits session removed
removed-Commits =
    then_delete
      (then_delete (then_set unchanged variable variable-IsStorable) (b'e' ∷ []) variable.guid)
      variable.name variable.guid

removed-few : length removed.0.vars ≤ (resolve no_limits).max_variables
unfolding resolve set delete delete_found split_off eq_bytes copy_at put_units encode_utf16le runes
    runes_from decode_rune utf16_encode encode_variable encode_header align_up pad_bytes
    serialize_vars read_store_file read_within write_file write_as commit rewrite build_store erase
    get find_var others flush list make_empty_store
removed-few = omega arith

open_limits-Commits_example : (open_limits plain_safeio path no_limits removed.1).0 ≡ ok removed.0
open_limits-Commits_example =
    open_limits-Commits plain_safeio plain_safeio-laws path no_limits files store removed
      files-bytes (unfold resolve in omega arith) image-opens removed-Commits removed-few

-- Two variables, of which the write of the second is cut off.
abbrev second : Variable
second = record variable { attributes = 6; guid = efi_authenticated_variable_guid }

second-IsStorable : IsStorable second
second-IsStorable = record { name_utf8 = name-IsUtf8; attributes_u32 = omega arith }

two-Fits : Fits (variable ∷ second ∷ []) store
unfolding serialize_vars encode_variable encode_header pad_bytes align_up copy_at encode_utf16le
    runes runes_from decode_rune utf16_encode put_units
two-Fits = omega arith

abbrev torn : Session
torn =
    (flush (variable ∷ second ∷ [])
      (store, record { files = files; fates = works ∷ interrupted 78 ∷ [] })).0

first_is_whole : whole_records false (variable ∷ second ∷ []) 50 ≡ variable ∷ []
unfolding whole_records encode_variable encode_header pad_bytes align_up copy_at encode_utf16le
    runes runes_from decode_rune utf16_encode put_units
first_is_whole = refl

flush_torn_reopens_example :
    ((78 < 28) × Ensures (λ _. ⊥) (open_limits plain_safeio path no_limits torn.1).0)
    ⊎ ((28 ≤ 78)
        × ((open_limits plain_safeio path no_limits torn.1).0
            ≡ ok (record store {
              vars = whole_records false (variable ∷ second ∷ []) 50;
              layout = clamped store.layout 78;
            })))
flush_torn_reopens_example =
    flush_torn_reopens store image opened files there plain_safeio plain_safeio-laws no_limits
      (variable ∷ second ∷ []) 78 store-resolved two-Fits
      (variable-IsStorable, (second-IsStorable, tt)) (omega arith)

apart : Differs variable.name variable.guid second.name second.guid
unfolding eq_bytes
apart = refl

first_works : (set session variable).1 ≡ ok tt
unfolding set eq_bytes copy_at put_units encode_utf16le runes runes_from decode_rune utf16_encode
    encode_variable encode_header align_up pad_bytes serialize_vars read_store_file read_within
    write_file write_as commit rewrite build_store erase get find_var others flush list
    make_empty_store
first_works = refl

then_works : (set (set session variable).0 second).1 ≡ ok tt
unfolding set eq_bytes copy_at put_units encode_utf16le runes runes_from decode_rune utf16_encode
    encode_variable encode_header align_up pad_bytes serialize_vars read_store_file read_within
    write_file write_as commit rewrite build_store erase get find_var others flush list
    make_empty_store
then_works = refl

second_works : (set session second).1 ≡ ok tt
unfolding set eq_bytes copy_at put_units encode_utf16le runes runes_from decode_rune utf16_encode
    encode_variable encode_header align_up pad_bytes serialize_vars read_store_file read_within
    write_file write_as commit rewrite build_store erase get find_var others flush list
    make_empty_store
second_works = refl

other_works : (set (set session second).0 variable).1 ≡ ok tt
unfolding set eq_bytes copy_at put_units encode_utf16le runes runes_from decode_rune utf16_encode
    encode_variable encode_header align_up pad_bytes serialize_vars read_store_file read_within
    write_file write_as commit rewrite build_store erase get find_var others flush list
    make_empty_store
other_works = refl

set_comm_example :
    (contents (set (set session variable).0 second).0
      ≡ contents (set (set session second).0 variable).0)
    × ((name : Bytes) (guid : Guid)
        → get (set (set session variable).0 second).0 name guid
          ≡ get (set (set session second).0 variable).0 name guid)
set_comm_example =
    set_comm session variable second apart first_works then_works second_works other_works
