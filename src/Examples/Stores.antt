-- ===== src/Examples/Stores.antt =====
-- The theorems on stores at the store of 256 bytes, and at the files in it.
use uefi.Base.{
  arith, ◌≡◌, refl, none, ok, err, not_exist, os_error, Bytes, [], ◌∷◌, length, take, drop,
  replicate, false,
}
use uefi.Safeio.{plain_safeio, plain_safeio-laws}
use uefi.Base.{copy_at, eq_bytes}
use uefi.Text.{encode_utf16le, put_units}
use uefi.Text.Utf8.{runes, runes_from, decode_rune}
use uefi.Text.Utf16.{utf16_encode}
use uefi.Variable.{Variable}
use uefi.Record.{encode_variable, encode_header, align_up, pad_bytes}
use uefi.Walk.{serialize_vars}
use uefi.Disk.{Disk, interrupted, works, read_store_file, read_within, write_as}
use uefi.Store.{
  Session, Limits, resolve, open_limits, commit, rewrite, build_store, erase, get, find_var, others,
  set, flush, list, delete, delete_found, split_off,
}
use uefi.Format.{make_empty_store, format}
use uefi.Disk
use uefi.Store.Rewrite.{build_store_keeps}
use uefi.Store.Flushed.{flushed, Fits}
use uefi.Store.Reopen.{calm, put, set_reopens, flush_interrupted}
use uefi.Format.Fresh.{format_opens, fresh_store, fresh_image}
use uefi.Files.{default_namespace_guid, read_file, write_file, rename}
use uefi.Files.Laws.{rename_moves, rename_same}
use uefi.Examples.{path, image, files, store, session, opened, there, variable, variable-IsStorable}

abbrev no_limits : Limits
no_limits = record { max_file_size = 0; max_variables = 0 }

store-resolved : store.lim ≡ resolve no_limits
unfolding resolve
store-resolved = refl

variable-Fits : Fits (variable ∷ []) store
unfolding serialize_vars encode_variable encode_header pad_bytes align_up copy_at encode_utf16le
    runes runes_from decode_rune utf16_encode put_units
variable-Fits = omega arith

set_reopens_example :
    ((set (store, calm files) variable).1 ≡ ok tt)
    × ((open_limits plain_safeio path no_limits (set (store, calm files) variable).0.1).0
        ≡ ok (record store { vars = variable ∷ [] }))
unfolding others
set_reopens_example =
    set_reopens store image opened files there plain_safeio plain_safeio-laws no_limits
      store-resolved variable variable-IsStorable tt variable-Fits (omega arith)

flush_interrupted_example :
    flush (variable ∷ []) (store, record { files = files; fates = works ∷ interrupted 10 ∷ [] }) ≡ (
      (
        record store { vars = variable ∷ [] },
        calm (put path (take 10 (flushed (variable ∷ []) store image)) files),
      ),
      err os_error,
    )
flush_interrupted_example =
    flush_interrupted store image opened files there (variable ∷ []) 10 variable-Fits

build_store_keeps_example :
    (buf : Bytes) × (build_store (replicate 40 0) 0 36 (1 ∷ 2 ∷ []) ≡ ok buf)
    × (length buf ≡ 40)
    × (take 28 buf ≡ take 28 (replicate 40 0))
    × (drop 36 buf ≡ drop 36 (replicate 40 0))
build_store_keeps_example =
    build_store_keeps (replicate 40 0) 0 36 (1 ∷ 2 ∷ []) (omega arith) (omega arith)

format_opens_example : format plain_safeio path 64 (calm (λ _. none)) ≡ (
  ok (fresh_store plain_safeio plain_safeio-laws path 64),
  calm (put path (fresh_image 64) (λ _. none)),
)
format_opens_example =
    format_opens plain_safeio plain_safeio-laws path 64 (λ _. none) (omega arith) (omega arith)

-- The session with a file "d" written, and what its variable is.
abbrev content : Bytes
content = 1 ∷ 2 ∷ []

abbrev written : Session
written = (write_file session (b'd' ∷ []) content).0

abbrev d_file : Variable
d_file = record {
  name = b'd' ∷ [];
  guid = default_namespace_guid;
  attributes = 7;
  content = content;
}

write_works : (write_file session (b'd' ∷ []) content).1 ≡ ok tt
unfolding write_file copy_at eq_bytes put_units encode_utf16le runes runes_from decode_rune
    utf16_encode encode_variable encode_header align_up pad_bytes serialize_vars read_store_file
    read_within Disk.write_file write_as commit rewrite build_store erase get find_var others set
    flush list make_empty_store
write_works = refl

d_found : get written (b'd' ∷ []) default_namespace_guid ≡ ok d_file
unfolding write_file copy_at eq_bytes put_units encode_utf16le runes runes_from decode_rune
    utf16_encode encode_variable encode_header align_up pad_bytes serialize_vars read_store_file
    read_within Disk.write_file write_as commit rewrite build_store erase get find_var others set
    flush list make_empty_store
d_found = refl

copy_works : (set written (record d_file { name = b'e' ∷ [] })).1 ≡ ok tt
unfolding write_file copy_at eq_bytes put_units encode_utf16le runes runes_from decode_rune
    utf16_encode encode_variable encode_header align_up pad_bytes serialize_vars read_store_file
    read_within Disk.write_file write_as commit rewrite build_store erase get find_var others set
    flush list make_empty_store
copy_works = refl

drop_works :
    (delete
      (set written (record d_file { name = b'e' ∷ [] })).0
      (b'd' ∷ [])
      default_namespace_guid).1
    ≡ ok tt
unfolding write_file delete delete_found split_off copy_at eq_bytes put_units encode_utf16le runes
    runes_from decode_rune utf16_encode encode_variable encode_header align_up pad_bytes
    serialize_vars read_store_file read_within Disk.write_file write_as commit rewrite build_store
    erase get find_var others set flush list make_empty_store
drop_works = refl

again_works : (set written (record d_file { name = b'd' ∷ [] })).1 ≡ ok tt
unfolding write_file copy_at eq_bytes put_units encode_utf16le runes runes_from decode_rune
    utf16_encode encode_variable encode_header align_up pad_bytes serialize_vars read_store_file
    read_within Disk.write_file write_as commit rewrite build_store erase get find_var others set
    flush list make_empty_store
again_works = refl

drop_again_works :
    (delete
      (set written (record d_file { name = b'd' ∷ [] })).0
      (b'd' ∷ [])
      default_namespace_guid).1
    ≡ ok tt
unfolding write_file delete delete_found split_off copy_at eq_bytes put_units encode_utf16le runes
    runes_from decode_rune utf16_encode encode_variable encode_header align_up pad_bytes
    serialize_vars read_store_file read_within Disk.write_file write_as commit rewrite build_store
    erase get find_var others set flush list make_empty_store
drop_again_works = refl

apart : eq_bytes (b'd' ∷ []) (b'e' ∷ []) ≡ false
unfolding eq_bytes
apart = refl

rename_moves_example :
    ((rename written (b'd' ∷ []) (b'e' ∷ [])).1 ≡ ok tt)
    × (read_file (rename written (b'd' ∷ []) (b'e' ∷ [])).0 (b'e' ∷ [])
        ≡ read_file written (b'd' ∷ []))
    × (read_file (rename written (b'd' ∷ []) (b'e' ∷ [])).0 (b'd' ∷ []) ≡ err not_exist)
rename_moves_example =
    rename_moves written (b'd' ∷ []) (b'e' ∷ []) d_file d_found copy_works drop_works apart

rename_same_example :
    ((rename written (b'd' ∷ []) (b'd' ∷ [])).1 ≡ ok tt)
    × (read_file (rename written (b'd' ∷ []) (b'd' ∷ [])).0 (b'd' ∷ []) ≡ err not_exist)
rename_same_example = rename_same written (b'd' ∷ []) d_file d_found again_works drop_again_works
