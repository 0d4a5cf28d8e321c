-- ===== src/Format/Fresh.antt =====
-- format.go: the store that Format makes.
use uefi.Base.{
  ℕ, zero, suc, ◌+◌, ◌-◌, ◌%◌, ◌<◌, ◌≤◌, ◌≡◌, subst, refl, sym, ap, ◌∙◌, true, false, Option, [],
  ◌∷◌, ◌++◌, Bytes, arith, inl, inr,
}
use uefi.Base.{
  ok, ltb, le→ltb, le→leb, le32, le32_value, uint32, slice, slice_ok, index, length,
  length-replicate, take, drop, copy_at, replicate, replicate_add, eq_bytes, eq_bytes_refl,
}
use uefi.Safeio.{Safeio, SafeioLaws}
use uefi.Variable.{u32_mod, guid_bytes, guid_of, efi_variable_guid, store_formatted, store_healthy}
use uefi.Walk.{serialize_vars, parse_variables}
use uefi.Walk.RoundTrip.{IsErased, parse_variables-serialize_vars}
use uefi.Disk.{read_store_file, read_within_ok, write_file}
use uefi.Store.{
  Limits, Store, erase, open_store, open_limits, open_bytes, read_layout, read_store_header,
  detect_fv_wrap, resolve, default_max_file_size, default_max_variables,
}
use uefi.Store.Prefix.{detect_fv_wrap_raw}
use uefi.Store.Rewrite.{erase-replicate}
use uefi.Store.Flushed.{IsOpen}
use uefi.Store.Reopen.{calm, put}
use uefi.Format.{make_empty_store, open_written, format}

-- The header of a raw store of `size` bytes.
abbrev fresh_header : ℕ → Bytes
fresh_header size =
    guid_bytes efi_variable_guid
    ++ (le32 (size % u32_mod) ++ (store_formatted ∷ store_healthy ∷ 0 ∷ 0 ∷ 0 ∷ 0 ∷ 0 ∷ 0 ∷ []))

-- A raw store of `size` bytes: the header, and erased flash.
abbrev pub fresh_image : ℕ → Bytes
fresh_image size = fresh_header size ++ replicate (size - 28) 0xff

make_empty_store_lem :
    (k : ℕ) → make_empty_store (28 + k) ≡ fresh_header (28 + k) ++ replicate k 0xff
unfolding make_empty_store erase copy_at
make_empty_store_lem k =
    let room : 28 + k - 28 ≡ k = omega arith in
    rw (room, replicate_add 28 k) (rw (erase-replicate k))

length-fresh : (k : ℕ) → length (fresh_header (28 + k) ++ replicate k 0xff) ≡ 28 + k
length-fresh k = rw (length-replicate {A = ℕ} k 0xff) (omega arith)

fresh_raw : (k : ℕ) → detect_fv_wrap (fresh_header (28 + k) ++ replicate k 0xff) ≡ ok false
unfolding index
fresh_raw k = detect_fv_wrap_raw (fresh_header (28 + k) ++ replicate k 0xff) refl

fresh_slice :
    (k lo hi : ℕ)
    → lo ≤ hi
    → hi ≤ 28
    → slice (fresh_header (28 + k) ++ replicate k 0xff) lo hi
      ≡ ok (take (hi - lo) (drop lo (fresh_header (28 + k) ++ replicate k 0xff)))
fresh_slice k lo hi h h' =
    slice_ok (fresh_header (28 + k) ++ replicate k 0xff) lo hi h (omega (arith, length-fresh k))

fresh_layout :
    (k : ℕ)
    → 28 + k < u32_mod
    → read_store_header (fresh_header (28 + k) ++ replicate k 0xff) false
      ≡ ok (record { fv_wrapped = false; auth_vars = false; store_off = 0; store_size = 28 + k })
unfolding read_store_header guid_of index eq_bytes uint32
fresh_layout k small =
    let size : 28 + k ≡ (28 + k) % u32_mod = omega arith in
    let whole : 28 + k - 0 ≡ 28 + k = omega arith in
    rw
      (
        length-fresh k,
        fresh_slice k 0 16 (omega arith) (omega arith),
        fresh_slice k 16 20 (omega arith) (omega arith),
        le→leb 28 (28 + k) (omega arith),
      )
      (rw (sym size) (
        rw (le32_value (28 + k) (omega arith), whole)
          (rw (le→ltb (28 + k) (28 + k) (omega arith)))))

fresh-IsErased : (k : ℕ) → IsErased 28 (replicate k 0xff) (0 + (28 + k))
fresh-IsErased zero = inl (omega arith)
fresh-IsErased (suc zero) = inl (omega arith)
fresh-IsErased (suc (suc k)) = inr (replicate k 0xff, refl)

module _ (io : Safeio) (laws : SafeioLaws io) (path : Bytes) where
  fresh_variables :
      (k : ℕ)
      → 28 + k ≤ default_max_file_size
      → parse_variables io
          (fresh_header (28 + k) ++ replicate k 0xff)
          0
          (28 + k)
          false
          default_max_variables
        ≡ ok []
  unfolding serialize_vars
  fresh_variables k fits =
      parse_variables-serialize_vars io laws false [] (fresh_header (28 + k)) (replicate k 0xff) 0
        (28 + k) default_max_variables tt refl refl (omega arith) (omega (arith, length-fresh k))
        (omega arith) (omega arith) (fresh-IsErased k)

  -- The limits that Open takes.
  abbrev open_limit : Limits
  open_limit = record {
    max_file_size = default_max_file_size;
    max_variables = default_max_variables;
  }

  -- An empty raw store over a whole file of `size` bytes.
  abbrev pub fresh_store : ℕ → Store
  fresh_store size = record {
    path = path;
    lim = open_limit;
    vars = [];
    layout = record { fv_wrapped = false; auth_vars = false; store_off = 0; store_size = size };
  }

  fresh_open_bytes :
      (k : ℕ)
      → 28 + k ≤ default_max_file_size
      → open_bytes io path open_limit (make_empty_store (28 + k)) ≡ ok (fresh_store (28 + k))
  unfolding open_bytes read_layout
  fresh_open_bytes k fits =
      rw (make_empty_store_lem k, fresh_raw k, fresh_layout k (omega arith))
        (rw (fresh_variables k fits))

  fresh_format :
      (k : ℕ) (files : Bytes → Option Bytes)
      → 4 ≤ k
      → 28 + k ≤ default_max_file_size
      → format io path (28 + k) (calm files)
        ≡ (ok (fresh_store (28 + k)), calm (put path (make_empty_store (28 + k)) files))
  unfolding format write_file open_written open_store open_limits read_store_file resolve
  fresh_format k files lo hi =
      let small : ltb (28 + k) 32 ≡ false = le→ltb (28 + k) 32 (omega arith) in
      let large : ltb default_max_file_size (28 + k) ≡ false =
        le→ltb default_max_file_size (28 + k) hi in
      let size : length (make_empty_store (28 + k)) ≤ default_max_file_size =
        rw (make_empty_store_lem k) (omega (arith, length-fresh k)) in
      rw (small, large, eq_bytes_refl path)
        (rw
          (read_within_ok true default_max_file_size (make_empty_store (28 + k)) size (omega arith))
          (rw (fresh_open_bytes k hi)))

  fresh_image_lem : (k : ℕ) → make_empty_store (28 + k) ≡ fresh_image (28 + k)
  fresh_image_lem k =
      make_empty_store_lem k ∙ ap (λ n. fresh_header (28 + k) ++ replicate n 0xff) (omega arith)

  -- Format of a size from 32 bytes to the ceiling of Open succeeds on a working disk: the file
  -- holds the header of a raw store of that size and then 0xff in every byte up to that size, and
  -- the store that Open finds in it is empty and has the whole file.
  pub format_opens :
      (size : ℕ) (files : Bytes → Option Bytes)
      → 32 ≤ size
      → size ≤ default_max_file_size
      → format io path size (calm files)
        ≡ (ok (fresh_store size), calm (put path (fresh_image size) files))
  format_opens size files lo hi =
      let whole : 28 + (size - 28) ≡ size = omega arith in
      subst
        (λ (n : ℕ).
          format io path n (calm files)
          ≡ (ok (fresh_store n), calm (put path (fresh_image n) files)))
        whole
        (fresh_format (size - 28) files (omega arith) (omega arith)
          ∙ ap (λ b. (ok (fresh_store (28 + (size - 28))), calm (put path b files)))
              (fresh_image_lem (size - 28)))

  -- The store that Format makes, of a size between the two limits, belongs to its file.
  pub fresh_store-IsOpen :
      (size : ℕ)
      → 32 ≤ size
      → size ≤ default_max_file_size
      → IsOpen (fresh_store size) (make_empty_store size)
  unfolding read_layout
  fresh_store-IsOpen size lo hi =
      let k = size - 28 in
      let whole : 28 + k ≡ size = omega arith in
      let bytes : length (make_empty_store (28 + k)) ≡ 28 + k =
        rw (make_empty_store_lem k) (length-fresh k) in
      subst (λ (n : ℕ). IsOpen (fresh_store n) (make_empty_store n)) whole
        (record {
          laid_out = rw (make_empty_store_lem k, fresh_raw k) (fresh_layout k (omega arith));
          within_limit = rw bytes (omega arith);
          limit_int64 = omega arith;
          room_in_u32 = rw bytes (omega arith);
        })
