-- ===== src/Record.antt =====
-- uefi.go, parseOneVariable and encodeVariable: one variable record of the store, in the 32-byte
-- layout or, in authenticated stores, the 60-byte layout. A uint32 sum is taken modulo 2 ^ 32; the
-- sums in int64 and int stay below 2 ^ 35 and cannot wrap. Offsets and sizes are uint32 values.
pub mod Header
pub mod Bounds
pub mod RoundTrip
pub mod Kept
pub mod Torn
use uefi.Base.{
  ℕ, ◌+◌, ◌-◌, ◌*◌, ◌/◌, ◌%◌, Bool, true, false, Option, none, some, [], ◌∷◌, ◌++◌, Bytes,
}
use uefi.Base.{
  Result, ok, err, panic, out_of_fuel, guard, ◌>>=◌, ◌>>◌, slice, index, uint16, uint32_at,
}
use uefi.Base.{le16, le32, copy_at, set, replicate, length, leb, ◌==◌, if◌then◌else◌}
use uefi.Base.{end_of_region, header_truncated, name_beyond_store, data_beyond_store, beyond_store}
use uefi.Text.{encode_utf16le, decode_utf16le}
use uefi.Safeio.{Safeio}
use uefi.Variable.{u32_mod, variable_data, var_added, Guid, guid_bytes, guid_of, Variable}

-- The size of a record's header and the places of its fields, by `authVars`.
abbrev pub header_size : Bool → ℕ
header_size auth = if auth then 60 else 32

abbrev pub name_size_at : Bool → ℕ
name_size_at auth = if auth then 36 else 8

abbrev pub data_size_at : Bool → ℕ
data_size_at auth = if auth then 40 else 12

abbrev pub guid_at : Bool → ℕ
guid_at auth = if auth then 44 else 16

-- Sums of uint32 values.
abbrev pub add32 : ℕ → ℕ → ℕ
add32 a b = (a + b) % u32_mod

-- The branches on `authVars`: the sizes of the name and the data, and the GUID.
unfoldable pub read_fields : Bytes → ℕ → ℕ → Bool → Result (ℕ × ℕ × Guid)
read_fields buf off stop auth = do
  guard (leb (add32 off (header_size auth)) stop) header_truncated
  name_size ← uint32_at buf (add32 off (name_size_at auth))
  data_size ← uint32_at buf (add32 off (data_size_at auth))
  raw ← slice buf (add32 off (guid_at auth)) (add32 off (header_size auth))
  ok (name_size, data_size, guid_of raw)

-- `(x + headerAlignment - 1) &^ (headerAlignment - 1)`
abbrev pub round_up : ℕ → ℕ
round_up x = (x + 3) / 4 * 4

-- The copy of the data, `none` where MakeBytes refuses.
unfoldable pub keep_data :
    Variable → Bytes → ℕ → ℕ → ℕ → Option Bytes → Result (Option Variable × ℕ)
keep_data v buf data_off data_size next none = ok (none, next)
keep_data v buf data_off data_size next (some payload) = do
  raw ← slice buf data_off (add32 data_off data_size)
  ok (some (record v { content = copy_at payload 0 raw }), next)

-- A record whose name does not decode is skipped.
unfoldable pub keep_name :
    Safeio → Result Bytes → Variable → Bytes → ℕ → ℕ → ℕ → ℕ → Result (Option Variable × ℕ)
unfolding keep_data
keep_name io (ok name) v buf data_off data_size next stop =
    keep_data (record v { name = name }) buf data_off data_size next (io.make_bytes data_size stop)
keep_name io (err e) v buf data_off data_size next stop = ok (none, next)
keep_name io panic v buf data_off data_size next stop = panic
keep_name io out_of_fuel v buf data_off data_size next stop = out_of_fuel

-- The body of the record, its header read: the bounds of name and data, then their bytes.
unfoldable pub read_body :
    Safeio → Bytes → ℕ → ℕ → Bool → ℕ → ℕ → ℕ × ℕ × Guid → Result (Option Variable × ℕ)
unfolding keep_name
read_body io buf off stop auth state attrs (name_size, data_size, guid) =
    let name_off = off + header_size auth in
    let data_off = name_off + name_size in
    let next64 = round_up (data_off + data_size) in
    let next = next64 % u32_mod in
    let v : Variable = record { name = []; guid = guid; attributes = attrs; content = [] } in
    do
      guard (io.check_bounds name_off name_size stop) name_beyond_store
      guard (io.check_bounds data_off data_size stop) data_beyond_store
      guard (leb next64 stop) beyond_store
      if state == var_added
          then (do
            raw ← slice buf (name_off % u32_mod) (add32 (name_off % u32_mod) name_size)
            keep_name io (decode_utf16le raw) v buf (data_off % u32_mod) data_size next stop)
          else ok (none, next)

-- parseOneVariable: the variable, `none` for one that is deleted or cannot be kept, and the offset
-- of the next record.
unfoldable pub parse_one_variable : Safeio → Bytes → ℕ → ℕ → Bool → Result (Option Variable × ℕ)
unfolding read_fields read_body
parse_one_variable io buf off stop auth = do
  guard (leb (add32 off 2) stop) end_of_region
  start ← slice buf off (add32 off 2)
  start_id ← uint16 start
  guard (start_id == variable_data) end_of_region
  guard (io.check_bounds off 8 stop) header_truncated
  state ← index buf (add32 off 2)
  attrs ← uint32_at buf (add32 off 4)
  fields ← read_fields buf off stop auth
  read_body io buf off stop auth state attrs fields

-- alignUp
unfoldable pub align_up : ℕ → ℕ
align_up n = (n + 3) % u32_mod / 4 * 4

-- padBytes
unfoldable pub pad_bytes : ℕ → Bytes
unfolding align_up
pad_bytes n = replicate ((align_up n + u32_mod - n) % u32_mod) 0

-- The header that encodeVariable fills in; what it does not set stays zero.
unfoldable pub encode_header : Bool → ℕ → ℕ → ℕ → Guid → Bytes
unfolding copy_at
encode_header auth attrs name_size data_size guid =
    let blank = replicate (header_size auth) 0 in
    let marked = set (set (copy_at blank 0 (le16 variable_data)) 2 var_added) 3 0 in
    let with_attrs = copy_at marked 4 (le32 attrs) in
    let with_name = copy_at with_attrs (name_size_at auth) (le32 name_size) in
    let with_data = copy_at with_name (data_size_at auth) (le32 data_size) in
    copy_at with_data (guid_at auth) (guid_bytes guid)

-- encodeVariable
unfoldable pub encode_variable : Bool → Variable → Bytes
unfolding encode_header pad_bytes
encode_variable auth v =
    let name_buf = encode_utf16le v.name in
    let name_size = length name_buf % u32_mod in
    let data_size = length v.content % u32_mod in
    let hdr = encode_header auth v.attributes name_size data_size v.guid in
    let record_pad = pad_bytes (add32 (add32 (length hdr) name_size) data_size) in
    hdr ++ (name_buf ++ (v.content ++ record_pad))
