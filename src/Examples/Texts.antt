-- ===== src/Examples/Texts.antt =====
-- The theorems on device paths written again and as text, at concrete nodes.
use uefi.Base.{arith, ◌≡◌, ◌≤◌, refl, ok, Bytes, [], ◌∷◌, ◌++◌, length, All, IsByte}
use uefi.Base.{slice, index, uint32, uint16}
use uefi.Safeio.{plain_safeio, plain_safeio-laws}
use uefi.Variable.{guid_bytes, efi_variable_guid}
use uefi.DevicePath.{
  DevicePathNode, parse_device_path, parse_nodes, parse_node, marshal_device_path,
}
use uefi.DevicePath.Reparse.{marshal_device_path-parse_device_path}
use uefi.DevicePath.PathText.{
  device_path_text, node_texts, node_text, hardware_text, acpi_text, messaging_text, media_text,
  generic_text, hex_bytes, digits, lower_digit,
}
use uefi.Base.{slice_from}
use uefi.Text.{decode_utf16le, get_units, drop_nul}
use uefi.Text.Utf8.{string, encode_rune}
use uefi.Text.Utf16.{utf16_decode}
use uefi.LoadOption.{
  LoadOption, parse_load_option, marshal_load_option, find_nul, terminated, parse_tail,
}
use uefi.LoadOption.Reparse.{marshal_load_option-parse_load_option}
use uefi.DevicePath.PathText.Kept.{node_text-vendor}

abbrev root : DevicePathNode
root = record { node_type = 2; sub_type = 1; content = 0xd0 ∷ 0x41 ∷ 3 ∷ 10 ∷ 0 ∷ 0 ∷ 0 ∷ 0 ∷ [] }

abbrev pci : DevicePathNode
pci = record { node_type = 1; sub_type = 1; content = 0 ∷ 0x1f ∷ [] }

-- A path whose End node has a byte of data, which ParseDevicePath ignores.
abbrev padded : Bytes
padded = 1 ∷ 1 ∷ 6 ∷ 0 ∷ 0 ∷ 0x1f ∷ 0x7f ∷ 0xff ∷ 5 ∷ 0 ∷ 9 ∷ []

padded-parses : parse_device_path plain_safeio padded ≡ ok (pci ∷ [])
unfolding parse_device_path parse_nodes parse_node slice index uint16
padded-parses = refl

marshal_device_path-parse_device_path_example :
    (buf : Bytes) × (marshal_device_path (pci ∷ []) ≡ ok buf)
    × (length buf ≤ 11)
    × (parse_device_path plain_safeio buf ≡ ok (pci ∷ []))
marshal_device_path-parse_device_path_example =
    marshal_device_path-parse_device_path plain_safeio plain_safeio-laws padded (pci ∷ [])
      padded-parses

-- PciRoot(0x0)/Pci(0x1f,0x0)
text_of_path :
    device_path_text (root ∷ pci ∷ [])
    ≡ ok (
        b'P' ∷ b'c' ∷ b'i' ∷ b'R' ∷ b'o' ∷ b'o' ∷ b't' ∷ b'(' ∷ b'0' ∷ b'x' ∷ b'0' ∷ b')' ∷ b'/'
        ∷ b'P' ∷ b'c' ∷ b'i' ∷ b'(' ∷ b'0' ∷ b'x' ∷ b'1' ∷ b'f' ∷ b',' ∷ b'0' ∷ b'x' ∷ b'0' ∷ b')'
        ∷ [])
unfolding device_path_text node_texts node_text hardware_text acpi_text messaging_text media_text
    generic_text hex_bytes digits lower_digit slice index uint32
text_of_path = refl

node_text-vendor_example :
    node_text (record { node_type = 4; sub_type = 3; content = guid_bytes efi_variable_guid ++ [] })
    ≡ node_text
        (record { node_type = 4; sub_type = 7; content = guid_bytes efi_variable_guid ++ 1 ∷ [] })
node_text-vendor_example = node_text-vendor efi_variable_guid 3 7 [] (1 ∷ []) refl refl

-- An option whose path is the End node only, which Marshal leaves out.
abbrev ended : Bytes
ended = 1 ∷ 0 ∷ 0 ∷ 0 ∷ 4 ∷ 0 ∷ b'd' ∷ 0 ∷ 0 ∷ 0 ∷ 0x7f ∷ 0xff ∷ 4 ∷ 0 ∷ 7 ∷ []

abbrev ended_option : LoadOption
ended_option = record {
  attributes = 1;
  description = b'd' ∷ [];
  device_path = [];
  optional_data = 7 ∷ [];
}

ended-bytes : All IsByte ended
ended-bytes = ground arith

ended-parses : parse_load_option plain_safeio ended ≡ ok ended_option
unfolding parse_load_option find_nul terminated parse_tail parse_device_path parse_nodes parse_node
    slice slice_from index uint16 uint32 decode_utf16le get_units drop_nul utf16_decode string
    encode_rune
ended-parses = refl

marshal_load_option-parse_load_option_example :
    (buf : Bytes) × (marshal_load_option ended_option ≡ ok buf)
    × (length buf ≤ 15)
    × (parse_load_option plain_safeio buf ≡ ok ended_option)
marshal_load_option-parse_load_option_example =
    marshal_load_option-parse_load_option plain_safeio plain_safeio-laws ended ended-bytes
      ended_option ended-parses
