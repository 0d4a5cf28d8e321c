-- ===== src/Examples/Listings.antt =====
-- The theorems on the names and the listing of boot entries, and on fresh wrapped stores.
use uefi.Base.{arith, ◌≡◌, ◌<◌, ◌↔◌, refl, some, none, ok, [], ◌∷◌, ◌++◌, take}
use uefi.Base.{copy_at, eq_bytes, slice, index, uint16, uint32, slice_from}
use uefi.Safeio.{plain_safeio, plain_safeio-laws}
use uefi.Text.{encode_utf16le, decode_utf16le, drop_nul, put_units, get_units}
use uefi.Text.Utf8.{runes, runes_from, decode_rune, string, encode_rune}
use uefi.Text.Utf16.{utf16_encode, utf16_decode}
use uefi.Variable.{fv_header_size}
use uefi.VariableStore.{IsMap}
use uefi.Record.{encode_variable, encode_header, align_up, pad_bytes}
use uefi.Walk.{serialize_vars}
use uefi.Disk.{read_store_file, read_within, write_file, write_as}
use uefi.Store.{
  Session, commit, rewrite, build_store, erase, get, find_var, others, set, flush, list,
}
use uefi.Store.Reopen.{calm, put}
use uefi.Store.Map.{store_operations, store_operations-laws}
use uefi.DevicePath.{marshal_device_path, marshal_nodes}
use uefi.LoadOption.{marshal_load_option, parse_load_option, find_nul, terminated, parse_tail}
use uefi.Format.{make_empty_store}
use uefi.Format.{vars_size_arm64}
use uefi.Format.Ovmf.{
  ovmf_x86_64, ovmf_aarch64, geometry, make_empty_ovmf_store, format_ovmf, min_size, sum_words,
}
use uefi.Format.Ovmf.Image.{sum_words-make_empty_ovmf_store}
use uefi.Format.Ovmf.Opened.{wrapped_store, format_ovmf_opens}
use uefi.Boot.{
  boot_name, hex_digit, hex_value, hex_number, boot_order, set_boot_order, set_boot_entry,
  boot_entry, add_boot_entry, lowest_free, first_free, boot_numbers, contains, read_words,
  parse_boot_name,
}
use uefi.Boot.Parsed.{parse_boot_name_iff}
use uefi.Boot.Listing.{
  Entries, lookup, insert, has, keep_entry, read_entry, read_entries, add_number, add_ordered,
  add_others, list_boot_entries,
}
use uefi.Boot.Listing.Order.{range, filter, distinct, list_boot_entries-order}
use uefi.Boot.Listing.Readable.{readable, list_boot_entries-boot_entry}
use uefi.Examples.{path, session, option}

parse_boot_name_iff_example :
    (parse_boot_name (boot_name 0x1a2b) ≡ some 0x1a2b)
    ↔ ((0x1a2b < 65536) × (boot_name 0x1a2b ≡ boot_name 0x1a2b))
parse_boot_name_iff_example = parse_boot_name_iff (boot_name 0x1a2b) 0x1a2b

abbrev added : Session
added = (add_boot_entry store_operations session option).0

abbrev listed : Entries
listed = (0, option) ∷ []

lists :
    list_boot_entries store_operations plain_safeio added
    ≡ ok (listed, add_others listed 65536 0 (0 ∷ []))
unfolding list_boot_entries read_entries read_entry keep_entry insert lookup has add_number
    add_ordered parse_load_option find_nul terminated parse_tail parse_boot_name hex_number
    hex_value decode_utf16le drop_nul string encode_rune utf16_decode slice slice_from index uint16
    uint32 add_boot_entry lowest_free first_free boot_numbers contains set_boot_entry boot_name
    hex_digit boot_order read_words set_boot_order marshal_load_option marshal_device_path
    marshal_nodes copy_at eq_bytes put_units get_units encode_utf16le runes runes_from decode_rune
    utf16_encode encode_variable encode_header align_up pad_bytes serialize_vars read_store_file
    read_within write_file write_as commit rewrite build_store erase get find_var others set flush
    list make_empty_store
lists = refl

added-order : boot_order store_operations added ≡ ok (0 ∷ [])
unfolding add_boot_entry lowest_free first_free boot_numbers contains set_boot_entry boot_name
    hex_digit boot_order read_words set_boot_order marshal_load_option marshal_device_path
    marshal_nodes copy_at eq_bytes put_units get_units encode_utf16le runes runes_from decode_rune
    utf16_encode encode_variable encode_header align_up pad_bytes serialize_vars read_store_file
    read_within write_file write_as commit rewrite build_store erase get find_var others set flush
    list make_empty_store
added-order = refl

list_boot_entries-order_example :
    (es : Entries) × (list_boot_entries store_operations plain_safeio added
      ≡ ok (es, filter (has es) (distinct (0 ∷ [] ++ range 65536 0))))
list_boot_entries-order_example =
    list_boot_entries-order plain_safeio plain_safeio-laws store_operations added (0 ∷ [])
      added-order

added-IsMap : IsMap (list added)
unfolding add_boot_entry lowest_free first_free boot_numbers contains set_boot_entry boot_name
    hex_digit boot_order read_words set_boot_order marshal_load_option marshal_device_path
    marshal_nodes copy_at eq_bytes put_units get_units encode_utf16le runes runes_from decode_rune
    utf16_encode encode_variable encode_header align_up pad_bytes serialize_vars read_store_file
    read_within write_file write_as commit rewrite build_store erase get find_var others set flush
    list make_empty_store
added-IsMap = (refl, (refl, tt))

list_boot_entries-boot_entry_example :
    lookup listed 0 ≡ readable (boot_entry store_operations plain_safeio added 0)
list_boot_entries-boot_entry_example =
    list_boot_entries-boot_entry store_operations store_operations-laws plain_safeio added listed
      (add_others listed 65536 0 (0 ∷ [])) 0 lists added-IsMap (omega arith)

format_ovmf_opens_example :
    format_ovmf plain_safeio path vars_size_arm64 ovmf_aarch64 (calm (λ _. none)) ≡ (
      ok (
          wrapped_store plain_safeio plain_safeio-laws path
            (geometry ovmf_aarch64 vars_size_arm64).store_size),
      calm (put path (make_empty_ovmf_store vars_size_arm64 ovmf_aarch64) (λ _. none)),
    )
unfolding min_size
format_ovmf_opens_example =
    format_ovmf_opens plain_safeio plain_safeio-laws path ovmf_aarch64 vars_size_arm64 (λ _. none)
      (omega arith) (omega arith)

sum_words-make_empty_ovmf_store_example :
    sum_words (get_units (take fv_header_size (make_empty_ovmf_store 4096 ovmf_x86_64))) 0 ≡ 0
sum_words-make_empty_ovmf_store_example =
    sum_words-make_empty_ovmf_store ovmf_x86_64 4096 (omega arith)
