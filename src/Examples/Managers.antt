-- ===== src/Examples/Managers.antt =====
-- The theorems on the boot manager and the Secure Boot keys at the store of 256 bytes.
use uefi.Base.{arith, ◌≡◌, ◌<◌, refl, none, ok, err, not_exist, Bytes, [], ◌∷◌}
use uefi.Base.{copy_at, eq_bytes}
use uefi.Safeio.{plain_safeio, plain_safeio-laws}
use uefi.Text.{encode_utf16le, put_units, get_units}
use uefi.Text.Utf8.{runes, runes_from, decode_rune}
use uefi.Text.Utf16.{utf16_encode}
use uefi.Record.{encode_variable, encode_header, align_up, pad_bytes}
use uefi.Walk.{serialize_vars}
use uefi.Disk.{read_store_file, read_within, write_file, write_as}
use uefi.Store.{
  Session, commit, rewrite, build_store, erase, get, find_var, others, set, flush, list,
}
use uefi.Store.Map.{store_operations, store_operations-laws}
use uefi.DevicePath.{marshal_device_path, marshal_nodes}
use uefi.LoadOption.{marshal_load_option}
use uefi.Format.{make_empty_store}
use uefi.Format.Fresh.{fresh_store}
use uefi.Store.Reopen.{calm, put}
use uefi.SecureBoot.{
  SecureBootKeys, efi_global_variable_guid, enroll_secure_boot_keys, enroll_all,
  build_efi_signature_list,
}
use uefi.Base.{◌≤◌, length, some}
use uefi.Store.{Limits, resolve, open_limits}
use uefi.Store.Flushed.{Fits}
use uefi.Format.Fresh.{fresh_store-IsOpen}
use uefi.SecureBoot.Provisioned.{with_db, with_kek, with_keys, enroll_secure_boot_keys_reopens}
use uefi.Boot.{
  boot_name, hex_digit, boot_order, set_boot_order, boot_entry, set_boot_entry, add_boot_entry,
  lowest_free, first_free, boot_numbers, contains, read_words, set_boot_next, clear_boot_next,
}
use uefi.Boot.Persisted.{add_boot_entry_reopens}
use uefi.Store.{Store}
use uefi.Boot.Free.{IsLowest, lowest_free_lem}
use uefi.Boot.Entries.{add_boot_entry_lem}
use uefi.Examples.{
  path, image, files, store, session, opened, there, option, IsDescription-IsDescription,
}

abbrev option_bytes : Bytes
option_bytes = 1 ∷ 0 ∷ 0 ∷ 0 ∷ 0 ∷ 0 ∷ b'd' ∷ 0 ∷ 0 ∷ 0 ∷ 7 ∷ []

option_marshal : marshal_load_option option ≡ ok option_bytes
unfolding marshal_load_option marshal_device_path marshal_nodes encode_utf16le runes runes_from
    decode_rune utf16_encode put_units
option_marshal = refl

lowest_free_lem_example : IsLowest (list session) (lowest_free (list session))
lowest_free_lem_example = lowest_free_lem (list session)

abbrev added : Session
added = (add_boot_entry store_operations session option).0

add_works : add_boot_entry store_operations session option ≡ (added, ok 0)
unfolding add_boot_entry lowest_free first_free boot_numbers contains set_boot_entry boot_name
    hex_digit boot_order read_words set_boot_order set_boot_next clear_boot_next marshal_load_option
    marshal_device_path marshal_nodes copy_at eq_bytes put_units get_units encode_utf16le runes
    runes_from decode_rune utf16_encode encode_variable encode_header align_up pad_bytes
    serialize_vars read_store_file read_within write_file write_as commit rewrite build_store erase
    get find_var others set flush list make_empty_store
add_works = refl

no_order : boot_order store_operations session ≡ ok []
unfolding boot_order get find_var
no_order = refl

add_boot_entry_lem_example :
    (0 < 65536)
    × (get session (boot_name 0) efi_global_variable_guid ≡ err not_exist)
    × (boot_entry store_operations plain_safeio added 0 ≡ ok option)
    × (boot_order store_operations added ≡ ok (0 ∷ []))
add_boot_entry_lem_example =
    add_boot_entry_lem store_operations store_operations-laws plain_safeio plain_safeio-laws session
      option option_bytes [] added 0 (omega arith) IsDescription-IsDescription option_marshal
      (omega arith) no_order tt add_works

session-resolved : session.0.lim ≡ resolve (record { max_file_size = 0; max_variables = 0 })
unfolding resolve
session-resolved = refl

added-few : length added.0.vars ≤ 65536
unfolding add_boot_entry lowest_free first_free boot_numbers contains set_boot_entry boot_name
    hex_digit boot_order read_words set_boot_order set_boot_next clear_boot_next marshal_load_option
    marshal_device_path marshal_nodes copy_at eq_bytes put_units get_units encode_utf16le runes
    runes_from decode_rune utf16_encode encode_variable encode_header align_up pad_bytes
    serialize_vars read_store_file read_within write_file write_as commit rewrite build_store erase
    get find_var others set flush list make_empty_store
added-few = omega arith

add_boot_entry_reopens_example :
    (s' : Store) × ((open_limits plain_safeio path
        (record { max_file_size = 0; max_variables = 0 })
        added.1).0
      ≡ ok s')
    × (boot_entry store_operations plain_safeio (s', added.1) 0 ≡ ok option)
    × (boot_order store_operations (s', added.1) ≡ ok (0 ∷ []))
add_boot_entry_reopens_example =
    add_boot_entry_reopens plain_safeio plain_safeio-laws
      (record { max_file_size = 0; max_variables = 0 }) store image files session-resolved opened
      there tt option option_bytes [] added 0 (omega arith) IsDescription-IsDescription
      option_marshal (omega arith) no_order tt add_works added-few

abbrev keys : SecureBootKeys
keys = record { pk = 1 ∷ []; kek = 2 ∷ []; db = [] }

-- A store of 512 bytes, which has room for the three keys.
abbrev large : Session
large = (
  fresh_store plain_safeio plain_safeio-laws (b'v' ∷ []) 512,
  calm (put (b'v' ∷ []) (make_empty_store 512) (λ _. none)),
)

enrol_works : (enroll_secure_boot_keys store_operations large keys).1 ≡ ok tt
unfolding enroll_secure_boot_keys enroll_all build_efi_signature_list add_boot_entry lowest_free
    first_free boot_numbers contains set_boot_entry boot_name hex_digit boot_order read_words
    set_boot_order set_boot_next clear_boot_next marshal_load_option marshal_device_path
    marshal_nodes copy_at eq_bytes put_units get_units encode_utf16le runes runes_from decode_rune
    utf16_encode encode_variable encode_header align_up pad_bytes serialize_vars read_store_file
    read_within write_file write_as commit rewrite build_store erase get find_var others set flush
    list make_empty_store
enrol_works = refl

abbrev enrolled : Session
enrolled = (enroll_secure_boot_keys store_operations large keys).0

abbrev no_limits : Limits
no_limits = record { max_file_size = 0; max_variables = 0 }

large-resolved : large.0.lim ≡ resolve no_limits
unfolding resolve
large-resolved = refl

large-there : large.1.files (b'v' ∷ []) ≡ some (make_empty_store 512)
unfolding eq_bytes
large-there = refl

db-Fits :
    Fits
      (with_db plain_safeio plain_safeio-laws no_limits large.0
        (make_empty_store 512)
        large.1.files
        keys)
      large.0
unfolding others eq_bytes serialize_vars encode_variable encode_header pad_bytes align_up copy_at
    encode_utf16le runes runes_from decode_rune utf16_encode put_units
db-Fits = omega arith

kek-Fits :
    Fits
      (with_kek plain_safeio plain_safeio-laws no_limits large.0
        (make_empty_store 512)
        large.1.files
        keys)
      large.0
unfolding others eq_bytes serialize_vars encode_variable encode_header pad_bytes align_up copy_at
    encode_utf16le runes runes_from decode_rune utf16_encode put_units
kek-Fits = omega arith

keys-Fits :
    Fits
      (with_keys plain_safeio plain_safeio-laws no_limits large.0
        (make_empty_store 512)
        large.1.files
        keys)
      large.0
unfolding others eq_bytes serialize_vars encode_variable encode_header pad_bytes align_up copy_at
    encode_utf16le runes runes_from decode_rune utf16_encode put_units
keys-Fits = omega arith

few-keys :
    length (
      with_keys plain_safeio plain_safeio-laws no_limits large.0
        (make_empty_store 512)
        large.1.files
        keys)
    ≤ 65536
unfolding others eq_bytes
few-keys = omega arith

enroll_secure_boot_keys_reopens_example :
    ((enroll_secure_boot_keys store_operations large keys).1 ≡ ok tt)
    × ((open_limits plain_safeio (b'v' ∷ []) no_limits enrolled.1).0
        ≡ ok (record large.0 {
          vars =
              with_keys plain_safeio plain_safeio-laws no_limits large.0
                (make_empty_store 512)
                large.1.files
                keys;
        }))
enroll_secure_boot_keys_reopens_example =
    enroll_secure_boot_keys_reopens plain_safeio plain_safeio-laws no_limits large.0
      (make_empty_store 512) large.1.files keys large-resolved
      (fresh_store-IsOpen plain_safeio plain_safeio-laws (b'v' ∷ []) 512 (omega arith)
        (omega arith))
      large-there tt (omega arith) (omega arith) (omega arith) db-Fits kek-Fits keys-Fits few-keys
