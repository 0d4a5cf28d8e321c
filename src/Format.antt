-- ===== src/Format.antt =====
-- format.go, Format: a store in the raw, non-authenticated layout, written to its file and opened.
pub mod Fresh
pub mod Ovmf
use uefi.Base.{ℕ, ◌+◌, ◌-◌, ◌*◌, ◌%◌, [], Bytes}
use uefi.Base.{
  Result, ok, err, panic, out_of_fuel, size_too_small, too_large, ltb, le32, copy_at, set,
  replicate, if◌then◌else◌,
}
use uefi.Safeio.{Safeio}
use uefi.Variable.{
  u32_mod, guid_bytes, efi_variable_guid, store_header_size, store_formatted, store_healthy,
}
use uefi.Disk.{Disk, write_file}
use uefi.Store.{Store, erase, open_store, default_max_file_size}

-- VarsSizeX86_64 and VarsSizeARM64
abbrev pub vars_size_x86_64 : ℕ
vars_size_x86_64 = 512 * 1024

abbrev pub vars_size_arm64 : ℕ
vars_size_arm64 = 64 * 1024 * 1024

-- makeEmptyStore, for a size of at least a store header.
unfoldable pub make_empty_store : ℕ → Bytes
unfolding erase copy_at
make_empty_store size =
    let buf = erase store_header_size (size - store_header_size) (replicate size 0) in
    let signed = copy_at buf 0 (guid_bytes efi_variable_guid) in
    let sized = copy_at signed 16 (le32 (size % u32_mod)) in
    set (set sized 20 store_formatted) 21 store_healthy

unfoldable pub open_written : Safeio → Bytes → Result (Unit {0}) → Disk → Result Store × Disk
open_written io path (ok _) d = open_store io path d
open_written io path (err e) d = (err e, d)
open_written io path panic d = (panic, d)
open_written io path out_of_fuel d = (out_of_fuel, d)

-- Format. A negative size is refused like any that is too small.
unfoldable pub format : Safeio → Bytes → ℕ → Disk → Result Store × Disk
unfolding make_empty_store open_written
format io path size d =
    if ltb size (store_header_size + 4)
    then (err size_too_small, d)
    else if ltb default_max_file_size size
    then (err too_large, d)
    else (let (written, d') = write_file path (make_empty_store size) d in
        open_written io path written d')
