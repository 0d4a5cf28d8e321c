-- ===== src/Examples/Codecs.antt =====
-- The codecs' theorems at concrete data, and runs of the codecs.
use uefi.Base.{
  true, false, arith, ◌≡◌, ◌+◌, ◌≤◌, refl, some, ok, Ensures, Bytes, List, [], ◌∷◌, ◌++◌, length,
  copy_at, inr, replicate,
}
use uefi.Safeio.{plain_safeio, plain_safeio-laws}
use uefi.Text.{encode_utf16le, decode_utf16le, put_units}
use uefi.Text.Utf8.{runes, runes_from, decode_rune}
use uefi.Text.Utf16.{utf16_encode}
use uefi.Text.RoundTrip.{decode_utf16le-encode_utf16le}
use uefi.Record.{encode_variable, encode_header, align_up, pad_bytes, parse_one_variable}
use uefi.Record.Bounds.{Advances, parse_one_variable-Ensures}
use uefi.Record.RoundTrip.{parse_one_variable-encode_variable}
use uefi.Walk.{serialize_vars, parse_variables}
use uefi.Walk.Total.{IsBounded, parse_variables-Ensures}
use uefi.Walk.RoundTrip.{parse_variables-serialize_vars}
use uefi.DevicePath.{DevicePathNode, parse_device_path, marshal_device_path, marshal_nodes}
use uefi.DevicePath.Total.{total_length, parse_device_path-Ensures}
use uefi.DevicePath.RoundTrip.{parse_device_path-marshal_device_path}
use uefi.LoadOption.{parse_load_option, marshal_load_option}
use uefi.LoadOption.Total.{IsWithin, parse_load_option-Ensures}
use uefi.LoadOption.RoundTrip.{parse_load_option-marshal_load_option}
use uefi.Examples.{variable, variable-IsStorable, name-IsUtf8, option, IsDescription-IsDescription}

-- Two nodes, PciRoot(0x0) and Pci(0x1,0x0).
abbrev nodes : List DevicePathNode
nodes =
    record { node_type = 2; sub_type = 1; content = 0xd0 ∷ 0x41 ∷ 3 ∷ 10 ∷ 0 ∷ 0 ∷ 0 ∷ 0 ∷ [] }
    ∷ record { node_type = 1; sub_type = 1; content = 0 ∷ 1 ∷ [] }
    ∷ []

abbrev nodes_bytes : Bytes
nodes_bytes =
    2 ∷ 1 ∷ 12 ∷ 0 ∷ 0xd0 ∷ 0x41 ∷ 3 ∷ 10 ∷ 0 ∷ 0 ∷ 0 ∷ 0 ∷ 1 ∷ 1 ∷ 6 ∷ 0 ∷ 0 ∷ 1 ∷ 0x7f ∷ 0xff ∷ 4
    ∷ 0 ∷ []

nodes_marshal : marshal_device_path nodes ≡ ok nodes_bytes
unfolding marshal_device_path marshal_nodes
nodes_marshal = refl

abbrev option_bytes : Bytes
option_bytes = 1 ∷ 0 ∷ 0 ∷ 0 ∷ 0 ∷ 0 ∷ b'd' ∷ 0 ∷ 0 ∷ 0 ∷ 7 ∷ []

option_marshal : marshal_load_option option ≡ ok option_bytes
unfolding marshal_load_option marshal_device_path marshal_nodes encode_utf16le runes runes_from
    decode_rune utf16_encode put_units
option_marshal = refl

-- A store header's worth of bytes before a variable, and erased flash behind.
abbrev behind : Bytes
behind = 0xff ∷ 0xff ∷ []

parse_one_variable-encode_variable_example :
    parse_one_variable plain_safeio ([] ++ (encode_variable true variable ++ behind)) 0 70 true
    ≡ ok (some variable, 0 + length (encode_variable true variable))
unfolding encode_variable encode_header pad_bytes align_up copy_at encode_utf16le runes runes_from
    decode_rune utf16_encode put_units
parse_one_variable-encode_variable_example =
    parse_one_variable-encode_variable true variable plain_safeio plain_safeio-laws [] behind 70
      variable-IsStorable refl (omega arith) (omega arith)

parse_one_variable-Ensures_example :
    Ensures (Advances 0 2) (parse_one_variable plain_safeio (0xaa ∷ 0x55 ∷ []) 0 2 false)
parse_one_variable-Ensures_example =
    parse_one_variable-Ensures plain_safeio plain_safeio-laws (0xaa ∷ 0x55 ∷ []) 0 2 false
      (omega arith) (omega arith) (omega arith)

abbrev header : Bytes
header = replicate 28 0

parse_variables-serialize_vars_example :
    parse_variables plain_safeio
      (header ++ (serialize_vars false (variable ∷ []) ++ behind))
      0
      70
      false
      4
    ≡ ok (variable ∷ [])
unfolding serialize_vars encode_variable encode_header pad_bytes align_up copy_at encode_utf16le
    runes runes_from decode_rune utf16_encode put_units
parse_variables-serialize_vars_example =
    parse_variables-serialize_vars plain_safeio plain_safeio-laws false (variable ∷ []) header
      behind 0 70 4 (variable-IsStorable, tt) refl refl (omega arith) (omega arith) (omega arith)
      (omega arith) (inr ([], refl))

parse_variables-Ensures_example :
    Ensures
      (IsBounded 4 30)
      (parse_variables plain_safeio (header ++ (0xaa ∷ 0x55 ∷ [])) 0 30 false 4)
parse_variables-Ensures_example =
    parse_variables-Ensures plain_safeio plain_safeio-laws (header ++ (0xaa ∷ 0x55 ∷ [])) 0 30 false
      4 (omega arith) (omega arith)

parse_device_path-marshal_device_path_example :
    parse_device_path plain_safeio (nodes_bytes ++ 9 ∷ []) ≡ ok nodes
parse_device_path-marshal_device_path_example =
    parse_device_path-marshal_device_path plain_safeio plain_safeio-laws nodes nodes_bytes (9 ∷ [])
      nodes_marshal (omega arith)

parse_device_path-Ensures_example :
    Ensures (λ ns. total_length ns ≤ 22) (parse_device_path plain_safeio nodes_bytes)
parse_device_path-Ensures_example =
    parse_device_path-Ensures plain_safeio plain_safeio-laws nodes_bytes

parse_load_option-marshal_load_option_example :
    parse_load_option plain_safeio option_bytes ≡ ok option
parse_load_option-marshal_load_option_example =
    parse_load_option-marshal_load_option plain_safeio plain_safeio-laws option option_bytes
      (omega arith) IsDescription-IsDescription option_marshal (omega arith)

parse_load_option-Ensures_example :
    Ensures (IsWithin 11) (parse_load_option plain_safeio option_bytes)
parse_load_option-Ensures_example =
    parse_load_option-Ensures plain_safeio plain_safeio-laws option_bytes

decode_utf16le-encode_utf16le_example : decode_utf16le (encode_utf16le (b'd' ∷ [])) ≡ ok (b'd' ∷ [])
decode_utf16le-encode_utf16le_example = decode_utf16le-encode_utf16le (b'd' ∷ []) name-IsUtf8
