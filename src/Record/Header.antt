-- ===== src/Record/Header.antt =====
-- uefi.go: the header that encodeVariable writes, read back.
use uefi.Base.{
  ℕ, ◌+◌, ◌<◌, ◌≤◌, ◌≡◌, refl, ◌∙◌, Bool, true, false, Bytes, [], ◌++◌, ok, length, arith,
}
use uefi.Base.{
  leb, slice, index, slice_at, index_at, slice_ok, le16, uint32_at, uint32_at-le32, ap, le→leb,
}
use uefi.Variable.{u32_mod, Guid, guid_bytes, guid_of-guid_bytes, variable_data, var_added}
use uefi.Record.{
  encode_header, header_size, read_fields, add32, name_size_at, data_size_at, guid_at,
}

pub header_size_ge : (auth : Bool) → 32 ≤ header_size auth
header_size_ge true = omega arith
header_size_ge false = omega arith

pub length-encode_header :
    (auth : Bool) (attrs ns ds : ℕ) (g : Guid)
    → length (encode_header auth attrs ns ds g) ≡ header_size auth
unfolding encode_header
length-encode_header true attrs ns ds g = refl
length-encode_header false attrs ns ds g = refl

module _ (pre post : Bytes) (attrs ns ds : ℕ) (g : Guid) (stop : ℕ) where
  -- The header in front of `post`, behind `pre`.
  abbrev buffer : Bool → Bytes
  buffer auth = pre ++ (encode_header auth attrs ns ds g ++ post)

  name_word :
      (auth : Bool)
      → length pre + header_size auth < u32_mod
      → ns < u32_mod
      → uint32_at (buffer auth) (add32 (length pre) (name_size_at auth)) ≡ ok ns
  unfolding encode_header
  name_word true h small = uint32_at-le32 pre _ 36 ns _ (omega arith) (omega arith) refl small
  name_word false h small = uint32_at-le32 pre _ 8 ns _ (omega arith) (omega arith) refl small

  data_word :
      (auth : Bool)
      → length pre + header_size auth < u32_mod
      → ds < u32_mod
      → uint32_at (buffer auth) (add32 (length pre) (data_size_at auth)) ≡ ok ds
  unfolding encode_header
  data_word true h small = uint32_at-le32 pre _ 40 ds _ (omega arith) (omega arith) refl small
  data_word false h small = uint32_at-le32 pre _ 12 ds _ (omega arith) (omega arith) refl small

  guid_slice :
      (auth : Bool)
      → length pre + header_size auth < u32_mod
      → slice
          (buffer auth)
          (add32 (length pre) (guid_at auth))
          (add32 (length pre) (header_size auth))
        ≡ ok (guid_bytes g)
  unfolding encode_header
  guid_slice true h =
      slice_at pre _ 44 60 (omega arith) (omega arith)
      ∙ slice_ok _ 44 60 (omega arith) (omega arith)
  guid_slice false h =
      slice_at pre _ 16 32 (omega arith) (omega arith)
      ∙ slice_ok _ 16 32 (omega arith) (omega arith)

  pub attrs_word :
      (auth : Bool)
      → length pre + header_size auth < u32_mod
      → attrs < u32_mod
      → uint32_at (buffer auth) (add32 (length pre) 4) ≡ ok attrs
  unfolding encode_header
  attrs_word true h small = uint32_at-le32 pre _ 4 attrs _ (omega arith) (omega arith) refl small
  attrs_word false h small = uint32_at-le32 pre _ 4 attrs _ (omega arith) (omega arith) refl small

  pub start_bytes :
      (auth : Bool)
      → length pre + header_size auth < u32_mod
      → slice (buffer auth) (length pre) (add32 (length pre) 2) ≡ ok (le16 variable_data)
  unfolding encode_header
  start_bytes true h =
      slice_at pre _ 0 2 (omega arith) (omega arith) ∙ slice_ok _ 0 2 (omega arith) (omega arith)
  start_bytes false h =
      slice_at pre _ 0 2 (omega arith) (omega arith) ∙ slice_ok _ 0 2 (omega arith) (omega arith)

  pub state_byte :
      (auth : Bool)
      → length pre + header_size auth < u32_mod
      → index (buffer auth) (add32 (length pre) 2) ≡ ok var_added
  unfolding encode_header index
  state_byte true h = index_at pre _ 2 (omega arith)
  state_byte false h = index_at pre _ 2 (omega arith)

  -- The sizes and the GUID come back from the header that was written.
  pub read_fields-encode_header :
      (auth : Bool)
      → length pre + header_size auth ≤ stop
      → stop < u32_mod
      → ns < u32_mod
      → ds < u32_mod
      → read_fields (buffer auth) (length pre) stop auth ≡ ok (ns, ds, g)
  unfolding read_fields
  read_fields-encode_header auth fits small hn hd =
      let room : length pre + header_size auth < u32_mod = omega arith in
      let in_stop : leb (add32 (length pre) (header_size auth)) stop ≡ true =
        le→leb _ _ (omega arith) in
      rw (in_stop, name_word auth room hn, data_word auth room hd, guid_slice auth room)
        (ap (λ x. ok (ns, ds, x)) (guid_of-guid_bytes g []))
