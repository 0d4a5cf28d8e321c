-- ===== src/DevicePath.antt =====
-- devicepath.go: EFI_DEVICE_PATH_PROTOCOL node lists, parsed from untrusted bytes and marshalled.
pub mod Total
pub mod RoundTrip
pub mod Reparse
pub mod Views
pub mod PathText
use uefi.Base.{
  ℕ, zero, suc, ◌+◌, ◌-◌, ◌*◌, Bool, true, false, not, ◌&&◌, List, [], ◌∷◌, ◌++◌, Bytes,
}
use uefi.Base.{
  Result, ok, err, out_of_fuel, guard, ◌>>=◌, ◌>>◌, slice, index, uint16, le16, ltb, leb, ◌==◌,
  length, if◌then◌else◌,
}
use uefi.Base.{
  path_too_long, path_header_truncated, node_too_short, node_beyond_buffer, end_node_inside,
  node_too_long, guard_tripped,
}
use uefi.Safeio.{Safeio}

abbrev pub type_hardware : ℕ
type_hardware = 0x01

abbrev pub type_acpi : ℕ
type_acpi = 0x02

abbrev pub type_messaging : ℕ
type_messaging = 0x03

abbrev pub type_media : ℕ
type_media = 0x04

abbrev pub type_end : ℕ
type_end = 0x7f

abbrev pub end_entire : ℕ
end_entire = 0xff

abbrev pub path_header_size : ℕ
path_header_size = 4

abbrev pub max_device_path_bytes : ℕ
max_device_path_bytes = 64 * 1024

pub record DevicePathNode : Type 0 where
  pub node_type : ℕ
  pub sub_type : ℕ
  pub content : Bytes

-- Length
abbrev pub node_length : DevicePathNode → ℕ
node_length n = path_header_size + length n.content

-- isEnd
abbrev pub is_end : DevicePathNode → Bool
is_end n = n.node_type == type_end && n.sub_type == end_entire

module _ (io : Safeio) (b : Bytes) where
  -- One round of ParseDevicePath's loop: the node at `off`, and the offset behind it.
  unfoldable pub parse_node : ℕ → ℕ → Result (DevicePathNode × ℕ)
  parse_node rounds off = do
    guard (io.guard_next (length b + 1) rounds) guard_tripped
    guard (io.check_bounds off path_header_size (length b)) path_header_truncated
    typ ← index b off
    sub ← index b (off + 1)
    word ← slice b (off + 2) (off + 4)
    node_len ← uint16 word
    guard (leb path_header_size node_len) node_too_short
    guard (io.check_bounds off node_len (length b)) node_beyond_buffer
    bytes ← slice b (off + path_header_size) (off + node_len)
    ok (record { node_type = typ; sub_type = sub; content = bytes }, off + node_len)

  -- The loop. Every node takes four bytes at least, so `length b + 1` rounds of fuel are enough.
  unfoldable pub parse_nodes : ℕ → ℕ → ℕ → List DevicePathNode → Result (List DevicePathNode)
  parse_nodes zero rounds off nodes = out_of_fuel
  parse_nodes (suc fuel) rounds off nodes = parse_node rounds off >>= λ (node, next).
      let rest = parse_nodes fuel (suc rounds) next (nodes ++ node ∷ []) in
      if is_end node then ok nodes else rest

-- ParseDevicePath
unfoldable pub parse_device_path : Safeio → Bytes → Result (List DevicePathNode)
unfolding parse_nodes
parse_device_path io b =
    if ltb max_device_path_bytes (length b)
    then err path_too_long
    else parse_nodes io b (length b + 1) 0 0 []

-- The loop of MarshalDevicePath.
unfoldable pub marshal_nodes : List DevicePathNode → Result Bytes
marshal_nodes [] = ok []
marshal_nodes (n ∷ ns) = do
  guard (not (is_end n)) end_node_inside
  guard (leb (node_length n) 0xffff) node_too_long
  rest ← marshal_nodes ns
  ok ((n.node_type ∷ n.sub_type ∷ le16 (node_length n)) ++ (n.content ++ rest))

-- The entire-path End node.
abbrev pub end_node : Bytes
end_node = type_end ∷ end_entire ∷ path_header_size ∷ 0x00 ∷ []

-- MarshalDevicePath
unfoldable pub marshal_device_path : List DevicePathNode → Result Bytes
unfolding marshal_nodes
marshal_device_path nodes = do buf ← marshal_nodes nodes; ok (buf ++ end_node)
