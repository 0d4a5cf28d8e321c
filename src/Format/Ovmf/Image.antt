-- ===== src/Format/Ovmf/Image.antt =====
-- format.go: the bytes that makeEmptyOVMFStore makes: two headers, and erased flash.
use uefi.Base.{
  ℕ, ◌+◌, ◌-◌, ◌%◌, ◌<◌, ◌≤◌, ◌≡◌, subst, [], ◌∷◌, ◌++◌, Bytes, arith, le16, le32, le64, le16_value,
  replicate, replicate_add, take, copy_at, length, length-replicate,
}
use uefi.Text.{get_units}
use uefi.Variable.{
  u32_mod, guid_bytes, efi_authenticated_variable_guid, efi_system_nv_data_fv_guid, fv_header_size,
  fv_signature, store_formatted, store_healthy,
}
use uefi.Store.{erase}
use uefi.Store.Rewrite.{erase-replicate}
use uefi.Format.Ovmf.{
  OvmfFlavor, Geometry, geometry, sum_words, checksum, put_fv_header, put_store_header,
  make_empty_ovmf_store,
}
use uefi.Format.Ovmf.Checksum.{sum_words-checksum}

-- The header of the firmware volume, up to its checksum and from there on.
abbrev pub fv_front : Geometry → Bytes
fv_front geo =
    replicate 16 0
    ++ (guid_bytes efi_system_nv_data_fv_guid
        ++ (le64 geo.fv_length ++ (le32 fv_signature ++ (le32 0xe36 ++ le16 0x48))))

abbrev pub fv_back : Geometry → Bytes
fv_back geo = le16 0 ++ (0 ∷ 2 ∷ (le32 geo.num_blocks ++ (le32 geo.block_len ++ replicate 8 0)))

abbrev pub fv_bytes : Geometry → ℕ → Bytes
fv_bytes geo sum = fv_front geo ++ (le16 sum ++ fv_back geo)

abbrev pub store_header : ℕ → Bytes
store_header store_size =
    guid_bytes efi_authenticated_variable_guid
    ++ (le32 (store_size % u32_mod)
        ++ (store_formatted ∷ store_healthy ∷ 0 ∷ 0 ∷ 0 ∷ 0 ∷ 0 ∷ 0 ∷ []))

-- The whole file, of 100 + k bytes.
abbrev pub image : Geometry → ℕ → Bytes
image geo k =
    fv_bytes geo (checksum (fv_bytes geo 0)) ++ (store_header geo.store_size ++ replicate k 0xff)

pub make_empty_ovmf_store_lem :
    (flavor : OvmfFlavor) (k : ℕ)
    → make_empty_ovmf_store (100 + k) flavor ≡ image (geometry flavor (100 + k)) k
unfolding make_empty_ovmf_store put_fv_header put_store_header erase copy_at
make_empty_ovmf_store_lem flavor k =
    let room : 100 + k - 100 ≡ k = omega arith in
    rw (room, replicate_add 100 k) (rw (erase-replicate k))

pub length-image : (geo : Geometry) (k : ℕ) → length (image geo k) ≡ 100 + k
length-image geo k = rw (length-replicate {A = ℕ} k 0xff) (omega arith)

fv_words :
    (geo : Geometry) (c : ℕ)
    → c < 65536
    → get_units (fv_bytes geo c) ≡ get_units (fv_front geo) ++ c ∷ get_units (fv_back geo)
unfolding get_units
fv_words geo c small = rw (le16_value c (omega arith))

fv_sum : (geo : Geometry) → sum_words (get_units (fv_bytes geo (checksum (fv_bytes geo 0)))) 0 ≡ 0
fv_sum geo =
    rw (fv_words geo (checksum (fv_bytes geo 0)) (omega arith), fv_words geo 0 (omega arith))
      (sum_words-checksum (get_units (fv_front geo)) (get_units (fv_back geo)))

-- In a file that makeEmptyOVMFStore makes with room for the headers, the 16-bit words of the
-- header of the firmware volume sum to zero.
pub sum_words-make_empty_ovmf_store :
    (flavor : OvmfFlavor) (size : ℕ)
    → 100 ≤ size
    → sum_words (get_units (take fv_header_size (make_empty_ovmf_store size flavor))) 0 ≡ 0
sum_words-make_empty_ovmf_store flavor size room =
    let k = size - 100 in
    let whole : 100 + k ≡ size = omega arith in
    subst
      (λ (n : ℕ).
        sum_words (get_units (take fv_header_size (make_empty_ovmf_store n flavor))) 0 ≡ 0)
      whole (rw (make_empty_ovmf_store_lem flavor k) (fv_sum (geometry flavor (100 + k))))
