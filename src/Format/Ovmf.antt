-- ===== src/Format/Ovmf.antt =====
-- format.go, FormatOVMF: a fresh authenticated store inside a firmware volume. Of the values of the
-- type OVMFFlavor, the two that the source names are modelled.
pub mod Checksum
pub mod Image
pub mod Opened
use uefi.Base.{ℕ, ◌+◌, ◌-◌, ◌*◌, ◌/◌, ◌%◌, List, [], ◌∷◌, Bytes}
use uefi.Base.{
  Result, ok, err, panic, out_of_fuel, size_too_small, too_large, ltb, ◌==◌, le16, le32, le64,
  copy_at, set, take, replicate, if◌then◌else◌,
}
use uefi.Text.{get_units}
use uefi.Safeio.{Safeio}
use uefi.Variable.{
  u32_mod, guid_bytes, efi_authenticated_variable_guid, efi_system_nv_data_fv_guid, fv_header_size,
  fv_signature, store_header_size, store_formatted, store_healthy,
}
use uefi.Disk.{Disk, write_file}
use uefi.Store.{Store, erase, default_max_file_size}
use uefi.Format.{open_written}

pub data OvmfFlavor : Type 0 where
  ovmf_x86_64 ovmf_aarch64 : OvmfFlavor

abbrev pub arm_virt_nv_var_fv_size : ℕ
arm_virt_nv_var_fv_size = 0xC0000

abbrev pub arm_virt_nv_var_store_size : ℕ
arm_virt_nv_var_store_size = 0x40000

-- The sizes that `switch flavor` picks.
pub record Geometry : Type 0 where
  pub fv_length : ℕ
  pub store_size : ℕ
  pub block_len : ℕ
  pub num_blocks : ℕ

-- A block map of blocks of this length where they fill the file, or else of one block.
abbrev with_blocks : ℕ → ℕ → ℕ → ℕ → Geometry
with_blocks size fv_length store_size block_len =
    if size % block_len == 0
    then record {
      fv_length = fv_length;
      store_size = store_size;
      block_len = block_len;
      num_blocks = size / block_len % u32_mod;
    }
    else record {
      fv_length = fv_length;
      store_size = store_size;
      block_len = size % u32_mod;
      num_blocks = 1;
    }

unfoldable pub geometry : OvmfFlavor → ℕ → Geometry
geometry ovmf_aarch64 size =
    with_blocks size arm_virt_nv_var_fv_size (arm_virt_nv_var_store_size - fv_header_size) 0x40000
geometry ovmf_x86_64 size = with_blocks size size (size - fv_header_size) 0x1000

-- The sum of 16-bit words in a uint16.
unfoldable pub sum_words : List ℕ → ℕ → ℕ
sum_words [] sum = sum
sum_words (w ∷ ws) sum = sum_words ws ((sum + w) % 65536)

-- `uint16(0)-sum` over the words of the header.
abbrev pub checksum : Bytes → ℕ
checksum header = (65536 - sum_words (get_units header) 0) % 65536

-- The firmware volume's header, its checksum still zero.
unfoldable pub put_fv_header : Geometry → Bytes → Bytes
unfolding copy_at
put_fv_header geo buf =
    let guided = copy_at buf 0x10 (guid_bytes efi_system_nv_data_fv_guid) in
    let lengthed = copy_at guided 0x20 (le64 geo.fv_length) in
    let signed = copy_at lengthed 0x28 (le32 fv_signature) in
    let attributed = copy_at signed 0x2c (le32 0x00000e36) in
    let headed = copy_at attributed 0x30 (le16 0x0048) in
    let extended = copy_at headed 0x34 (le16 0x0000) in
    let revised = set (set extended 0x36 0x00) 0x37 0x02 in
    let counted = copy_at revised 0x38 (le32 geo.num_blocks) in
    copy_at counted 0x3c (le32 geo.block_len)

-- The variable store's header behind it.
unfoldable pub put_store_header : Geometry → Bytes → Bytes
unfolding copy_at
put_store_header geo buf =
    let signed = copy_at buf fv_header_size (guid_bytes efi_authenticated_variable_guid) in
    let sized = copy_at signed (fv_header_size + 16) (le32 (geo.store_size % u32_mod)) in
    set (set sized (fv_header_size + 20) store_formatted) (fv_header_size + 21) store_healthy

-- makeEmptyOVMFStore, for a size of at least the two headers.
unfoldable pub make_empty_ovmf_store : ℕ → OvmfFlavor → Bytes
unfolding geometry put_fv_header put_store_header erase copy_at
make_empty_ovmf_store size flavor =
    let geo = geometry flavor size in
    let header_end = fv_header_size + store_header_size in
    let erased = erase header_end (size - header_end) (replicate size 0) in
    let headed = put_fv_header geo erased in
    let summed = copy_at headed 0x32 (le16 (checksum (take fv_header_size headed))) in
    put_store_header geo summed

unfoldable pub min_size : OvmfFlavor → ℕ
min_size ovmf_aarch64 = arm_virt_nv_var_fv_size
min_size ovmf_x86_64 = fv_header_size + store_header_size + 4

-- FormatOVMF. A negative size is refused like any that is too small.
unfoldable pub format_ovmf : Safeio → Bytes → ℕ → OvmfFlavor → Disk → Result Store × Disk
unfolding make_empty_ovmf_store min_size
format_ovmf io path size flavor d =
    if ltb size (min_size flavor)
    then (err size_too_small, d)
    else if ltb default_max_file_size size
    then (err too_large, d)
    else (let (written, d') = write_file path (make_empty_ovmf_store size flavor) d in
        open_written io path written d')
