-- ===== src/Format/Ovmf/Opened.antt =====
-- format.go: the store that FormatOVMF makes, opened.
use uefi.Base.{
  ℕ, zero, suc, ◌+◌, ◌-◌, ◌%◌, ◌<◌, ◌≤◌, ◌≡◌, refl, sym, subst, true, Option, [], ◌++◌, Bytes,
  arith, inr, eq_bytes, eq_bytes_refl,
}
use uefi.Base.{
  ok, le→ltb, le→leb, le32_value, uint32, slice, slice_ok, index, length, take, drop, replicate,
}
use uefi.Safeio.{Safeio, SafeioLaws}
use uefi.Variable.{u32_mod, guid_of}
use uefi.Walk.{serialize_vars, parse_variables}
use uefi.Walk.RoundTrip.{IsErased, parse_variables-serialize_vars}
use uefi.Disk.{read_store_file, read_within_ok, write_file}
use uefi.Store.{
  Limits, Layout, Store, open_store, open_limits, open_bytes, read_layout, read_store_header,
  read_signature, detect_fv_wrap, resolve, default_max_file_size, default_max_variables,
}
use uefi.Store.Reopen.{calm, put}
use uefi.Format.{open_written}
use uefi.Format.Ovmf.{
  OvmfFlavor, Geometry, ovmf_x86_64, ovmf_aarch64, geometry, make_empty_ovmf_store, format_ovmf,
  min_size, checksum,
}
use uefi.Format.Ovmf.Image.{image, fv_bytes, store_header, make_empty_ovmf_store_lem, length-image}

slice-image :
    (geo : Geometry) (k lo hi : ℕ)
    → lo ≤ hi
    → hi ≤ 100
    → slice (image geo k) lo hi ≡ ok (take (hi - lo) (drop lo (image geo k)))
slice-image geo k lo hi h h' = slice_ok (image geo k) lo hi h (omega (arith, length-image geo k))

image_wrapped : (geo : Geometry) (k : ℕ) → detect_fv_wrap (image geo k) ≡ ok true
unfolding detect_fv_wrap guid_of eq_bytes uint32
image_wrapped geo k =
    rw
      (
        length-image geo k,
        le→ltb (100 + k) 72 (omega arith),
        slice-image geo k 16 32 (omega arith) (omega arith),
        slice-image geo k 40 44 (omega arith) (omega arith),
      )
      refl

-- The layout of a fresh wrapped store.
abbrev pub wrapped_layout : ℕ → Layout
wrapped_layout store_size = record {
  fv_wrapped = true;
  auth_vars = true;
  store_off = 72;
  store_size = store_size;
}

image_layout :
    (geo : Geometry) (k : ℕ)
    → 72 + geo.store_size ≤ 100 + k
    → 100 + k < u32_mod
    → read_store_header (image geo k) true ≡ ok (wrapped_layout geo.store_size)
unfolding read_store_header read_signature guid_of index eq_bytes uint32
image_layout geo k inside small =
    let size : geo.store_size ≡ geo.store_size % u32_mod = omega arith in
    rw
      (
        length-image geo k,
        slice-image geo k 72 88 (omega arith) (omega arith),
        slice-image geo k 88 92 (omega arith) (omega arith),
        le→leb 100 (100 + k) (omega arith),
      )
      (rw (sym size) (
        rw (
          le32_value geo.store_size (omega arith),
          le→ltb (100 + k - 72) geo.store_size (omega arith),
        )))

geometry_fits :
    (flavor : OvmfFlavor) (size : ℕ)
    → min_size flavor ≤ size
    → (28 ≤ (geometry flavor size).store_size) × (72 + (geometry flavor size).store_size ≤ size)
unfolding geometry min_size
geometry_fits ovmf_x86_64 size h = ground arith
geometry_fits ovmf_aarch64 size h = ground arith

min_size-le : (flavor : OvmfFlavor) → 104 ≤ min_size flavor
unfolding min_size
min_size-le ovmf_x86_64 = omega arith
min_size-le ovmf_aarch64 = omega arith

image-IsErased : (k stop : ℕ) → 2 ≤ k → IsErased 100 (replicate k 0xff) stop
image-IsErased zero stop h = absurd (omega arith)
image-IsErased (suc zero) stop h = absurd (omega arith)
image-IsErased (suc (suc k)) stop h = inr (replicate k 0xff, refl)

module _ (io : Safeio) (laws : SafeioLaws io) (path : Bytes) where
  abbrev open_limit : Limits
  open_limit = record {
    max_file_size = default_max_file_size;
    max_variables = default_max_variables;
  }

  -- An empty store of authenticated records in a firmware volume.
  abbrev pub wrapped_store : ℕ → Store
  wrapped_store store_size = record {
    path = path;
    lim = open_limit;
    vars = [];
    layout = wrapped_layout store_size;
  }

  image_variables :
      (geo : Geometry) (k : ℕ)
      → 2 ≤ k
      → 28 ≤ geo.store_size
      → 72 + geo.store_size ≤ 100 + k
      → 100 + k ≤ default_max_file_size
      → parse_variables io (image geo k) 72 geo.store_size true default_max_variables ≡ ok []
  unfolding serialize_vars
  image_variables geo k two low inside small =
      let front = fv_bytes geo (checksum (fv_bytes geo 0)) ++ store_header geo.store_size in
      parse_variables-serialize_vars io laws true [] front (replicate k 0xff) 72 geo.store_size
        default_max_variables tt refl refl low (omega (arith, length-image geo k)) (omega arith)
        (omega arith) (image-IsErased k (72 + geo.store_size) two)

  open_bytes-image :
      (geo : Geometry) (k : ℕ)
      → 2 ≤ k
      → 28 ≤ geo.store_size
      → 72 + geo.store_size ≤ 100 + k
      → 100 + k ≤ default_max_file_size
      → open_bytes io path open_limit (image geo k) ≡ ok (wrapped_store geo.store_size)
  unfolding open_bytes read_layout
  open_bytes-image geo k two low inside small =
      rw (image_wrapped geo k, image_layout geo k inside (omega arith))
        (rw (image_variables geo k two low inside small))

  ovmf_format :
      (flavor : OvmfFlavor) (k : ℕ) (files : Bytes → Option Bytes)
      → min_size flavor ≤ 100 + k
      → 100 + k ≤ default_max_file_size
      → format_ovmf io path (100 + k) flavor (calm files) ≡ (
        ok (wrapped_store (geometry flavor (100 + k)).store_size),
        calm (put path (make_empty_ovmf_store (100 + k) flavor) files),
      )
  unfolding format_ovmf write_file open_written open_store open_limits read_store_file resolve
  ovmf_format flavor k files lo hi =
      let geo = geometry flavor (100 + k) in
      let (low, inside) = geometry_fits flavor (100 + k) lo in
      let two : 2 ≤ k = omega (arith, min_size-le flavor) in
      let size : length (make_empty_ovmf_store (100 + k) flavor) ≤ default_max_file_size =
        rw (make_empty_ovmf_store_lem flavor k) (omega (arith, length-image geo k)) in
      let opens : open_bytes io path open_limit (make_empty_ovmf_store (100 + k) flavor)
          ≡ ok (wrapped_store geo.store_size) =
        rw (make_empty_ovmf_store_lem flavor k) (open_bytes-image geo k two low inside hi) in
      rw
        (
          le→ltb (100 + k) (min_size flavor) lo,
          le→ltb default_max_file_size (100 + k) hi,
          eq_bytes_refl path,
        )
        (rw
          (read_within_ok true default_max_file_size (make_empty_ovmf_store (100 + k) flavor) size
            (omega arith))
          (rw opens))

  -- FormatOVMF of either flavor, of a size from the flavor's minimum to the ceiling of Open,
  -- succeeds on a working disk: the file holds what makeEmptyOVMFStore makes, and the store that
  -- Open finds in it is empty, inside a firmware volume and of authenticated records, with the
  -- store size of the flavor.
  pub format_ovmf_opens :
      (flavor : OvmfFlavor) (size : ℕ) (files : Bytes → Option Bytes)
      → min_size flavor ≤ size
      → size ≤ default_max_file_size
      → format_ovmf io path size flavor (calm files) ≡ (
        ok (wrapped_store (geometry flavor size).store_size),
        calm (put path (make_empty_ovmf_store size flavor) files),
      )
  format_ovmf_opens flavor size files lo hi =
      let k = size - 100 in
      let whole : 100 + k ≡ size = omega (arith, min_size-le flavor) in
      subst
        (λ (n : ℕ). format_ovmf io path n flavor (calm files) ≡ (
          ok (wrapped_store (geometry flavor n).store_size),
          calm (put path (make_empty_ovmf_store n flavor) files),
        ))
        whole (ovmf_format flavor k files (omega (arith, min_size-le flavor)) (omega arith))
