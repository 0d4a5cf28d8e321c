-- ===== src/LoadOption.antt =====
-- bootvars.go, LoadOption: EFI_LOAD_OPTION blobs, parsed from untrusted bytes and marshalled.
pub mod Total
pub mod Description
pub mod RoundTrip
pub mod Scanned
pub mod Reparse
use uefi.Base.{ℕ, zero, suc, ◌+◌, ◌*◌, Bool, ◌&&◌, Option, none, some, List, [], ◌∷◌, ◌++◌, Bytes}
use uefi.Base.{
  Result, ok, err, out_of_fuel, guard, ◌>>=◌, ◌>>◌, slice, slice_from, index, uint16, uint32, le16,
  le32, ltb, leb, ◌==◌, length, if◌then◌else◌,
}
use uefi.Base.{
  option_too_long, option_truncated, unterminated, path_beyond_buffer, path_overflow, guard_tripped,
}
use uefi.Text.{encode_utf16le, decode_utf16le}
use uefi.Safeio.{Safeio}
use uefi.DevicePath.PathText.{device_path_text}
use uefi.DevicePath.{DevicePathNode, parse_device_path, marshal_device_path}

abbrev pub max_load_option_bytes : ℕ
max_load_option_bytes = 64 * 1024

pub record LoadOption : Type 0 where
  pub attributes : ℕ
  pub description : Bytes
  pub device_path : List DevicePathNode
  pub optional_data : Bytes

-- The scan for the description's terminator from `i` on, `none` if there is none. Each round goes
-- on by two bytes, so `length b + 1` rounds of fuel are enough.
unfoldable pub find_nul : Safeio → Bytes → ℕ → ℕ → ℕ → Result (Option ℕ)
find_nul io b zero rounds i = out_of_fuel
find_nul io b (suc fuel) rounds i =
    let rest = find_nul io b fuel (suc rounds) (i + 2) in
    if leb (i + 2) (length b)
    then (do
      guard (io.guard_next (length b + 1) rounds) guard_tripped
      x ← index b i
      y ← index b (i + 1)
      if x == 0 && y == 0 then ok (some i) else rest)
    else ok none

unfoldable pub terminated : Option ℕ → Result ℕ
terminated none = err unterminated
terminated (some i) = ok i

-- What follows the description: the device path and the optional data.
unfoldable pub parse_tail : Safeio → Bytes → ℕ → ℕ → ℕ → Bytes → Result LoadOption
parse_tail io b attrs fp_len dp_start desc = do
  guard (io.check_bounds dp_start fp_len (length b)) path_beyond_buffer
  dp_bytes ← slice b dp_start (dp_start + fp_len)
  nodes ← (if ltb 0 fp_len then parse_device_path io dp_bytes else ok [])
  opt ← slice_from b (dp_start + fp_len)
  ok (record { attributes = attrs; description = desc; device_path = nodes; optional_data = opt })

-- ParseLoadOption
unfoldable pub parse_load_option : Safeio → Bytes → Result LoadOption
unfolding find_nul terminated parse_tail
parse_load_option io b = if ltb max_load_option_bytes (length b) then err option_too_long else (do
  guard (io.check_bounds 0 6 (length b)) option_truncated
  attr_bytes ← slice b 0 4
  attrs ← uint32 attr_bytes
  len_bytes ← slice b 4 6
  fp_len ← uint16 len_bytes
  found ← find_nul io b (length b + 1) 0 6
  desc_end ← terminated found
  raw ← slice b 6 desc_end
  desc ← decode_utf16le raw
  parse_tail io b attrs fp_len (desc_end + 2) desc)

-- The device path of an option without nodes takes no bytes.
abbrev pub path_bytes : List DevicePathNode → Bytes → Bytes
path_bytes [] dp = []
path_bytes (n ∷ ns) dp = dp

-- LoadOption.Marshal
unfoldable pub marshal_load_option : LoadOption → Result Bytes
marshal_load_option lo = do
  dp ← marshal_device_path lo.device_path
  let dp_bytes = path_bytes lo.device_path dp
  guard (leb (length dp_bytes) 0xffff) path_overflow
  ok (
      (le32 lo.attributes ++ le16 (length dp_bytes))
      ++ (encode_utf16le lo.description ++ (dp_bytes ++ lo.optional_data)))

-- LoadOption.Text
unfoldable pub load_option_text : LoadOption → Result Bytes
load_option_text lo = device_path_text lo.device_path
