-- ===== src/Record/RoundTrip.antt =====
-- uefi.go: parseOneVariable on what encodeVariable wrote.
use uefi.Base.{
  ℕ, ◌+◌, ◌-◌, ◌%◌, ◌<◌, ◌≤◌, ◌≡◌, refl, ap, ◌∙◌, Bool, true, false, Bytes, ◌++◌, append_assoc, ok,
  length, arith, some,
}
use uefi.Base.{
  slice, slice_at, slice_mid, uint16, le→leb, length-append, length-replicate, copy_at-replicate,
}
use mathlib.Core.Path.{ap₂}
use uefi.Text.{encode_utf16le, decode_utf16le}
use uefi.Text.RoundTrip.{decode_utf16le-encode_utf16le}
use uefi.Safeio.{Safeio, SafeioLaws}
use uefi.Variable.{u32_mod, Variable, IsStorable, var_added}
use uefi.Record.{
  encode_header, encode_variable, header_size, add32, round_up, pad_bytes, align_up, read_body,
  parse_one_variable,
}
use uefi.Record.Header.{
  header_size_ge, length-encode_header, read_fields-encode_header, attrs_word, start_bytes,
  state_byte,
}

length-pad_bytes :
    (n : ℕ)
    → n < u32_mod
    → n + length (pad_bytes n) < u32_mod
    → n + length (pad_bytes n) ≡ round_up n
unfolding pad_bytes align_up
length-pad_bytes n h k =
    omega (arith, length-replicate {A = ℕ} ((align_up n + u32_mod - n) % u32_mod) 0)

pub header_size_aligned : (auth : Bool) → header_size auth % 4 ≡ 0
header_size_aligned true = refl
header_size_aligned false = refl

-- The padding behind a header, a name and data of sizes `h`, `n` and `d`.
length_padded :
    (h n d : ℕ) (pad : Bytes)
    → pad ≡ pad_bytes (add32 (add32 h (n % u32_mod)) (d % u32_mod))
    → h + n + d + length pad < u32_mod
    → h + n + d + length pad ≡ round_up (h + n + d)
length_padded h n d pad e small =
    let total : add32 (add32 h (n % u32_mod)) (d % u32_mod) ≡ h + n + d = omega arith in
    let pad_eq : pad ≡ pad_bytes (h + n + d) = e ∙ ap pad_bytes total in
    rw pad_eq (length-pad_bytes (h + n + d) (omega arith) (rw pad_eq at small))

length_four :
    (a b c d : Bytes) → length (a ++ (b ++ (c ++ d))) ≡ length a + length b + length c + length d
length_four a b c d =
    omega (arith, length-append a (b ++ (c ++ d)), length-append b (c ++ d), length-append c d)

module _ (auth : Bool) (v : Variable) where
  pub name_buf : Bytes
  name_buf = encode_utf16le v.name

  abbrev pub body_size : ℕ
  body_size = header_size auth + length name_buf + length v.content

  abbrev pub record_hdr : Bytes
  record_hdr =
      encode_header auth v.attributes (length name_buf % u32_mod) (length v.content % u32_mod)
        v.guid

  abbrev pub record_pad : Bytes
  record_pad =
      pad_bytes
        (add32 (add32 (length record_hdr) (length name_buf % u32_mod)) (length v.content % u32_mod))

  pub encode_variable_lem :
      encode_variable auth v ≡ record_hdr ++ (name_buf ++ (v.content ++ record_pad))
  unfolding encode_variable name_buf
  encode_variable_lem = refl

  -- A record's size: header, name and data, rounded up to the alignment.
  pub length-encode_variable :
      length (encode_variable auth v) < u32_mod
      → length (encode_variable auth v) ≡ round_up body_size
  length-encode_variable =
      rw (encode_variable_lem, length_four record_hdr name_buf v.content record_pad)
        λ small.
          length_padded (length record_hdr) (length name_buf) (length v.content) record_pad refl
            small
          ∙ ap (λ (h : ℕ). round_up (h + length name_buf + length v.content)) hdr_size
    where
      hdr_size : length record_hdr ≡ header_size auth
      hdr_size = length-encode_header auth _ _ _ _

  pub encode_variable_aligned :
      length (encode_variable auth v) < u32_mod
      → (32 ≤ length (encode_variable auth v)) × (length (encode_variable auth v) % 4 ≡ 0)
  encode_variable_aligned small =
      rw (length-encode_variable small) (omega (arith, header_size_ge auth), omega arith)

  module _ (io : Safeio) (laws : SafeioLaws io) (pre post : Bytes) (stop : ℕ) where
    -- The store's bytes around the record.
    abbrev buffer : Bytes
    buffer = pre ++ (record_hdr ++ (name_buf ++ (v.content ++ (record_pad ++ post))))

    abbrev tail_bytes : Bytes
    tail_bytes = name_buf ++ (v.content ++ (record_pad ++ post))

    hdr_end : length pre + length record_hdr ≡ length pre + header_size auth
    hdr_end = ap (λ (n : ℕ). length pre + n) (length-encode_header auth _ _ _ _)

    name_slice :
        length pre + body_size < u32_mod
        → slice buffer
            ((length pre + header_size auth) % u32_mod)
            (add32 ((length pre + header_size auth) % u32_mod) (length name_buf))
          ≡ ok name_buf
    name_slice room =
        slice_at pre _ (length record_hdr) (length record_hdr + length name_buf)
          (omega (arith, hdr_end)) (omega (arith, hdr_end))
        ∙ slice_mid record_hdr name_buf _

    content_slice :
        length pre + body_size < u32_mod
        → slice buffer
            ((length pre + header_size auth + length name_buf) % u32_mod)
            (add32 ((length pre + header_size auth + length name_buf) % u32_mod) (length v.content))
          ≡ ok v.content
    content_slice room =
        slice_at pre _ (length record_hdr + length name_buf)
          (length record_hdr + (length name_buf + length v.content)) (omega (arith, hdr_end))
          (omega (arith, hdr_end))
        ∙ slice_at record_hdr _ (length name_buf) (length name_buf + length v.content) refl refl
        ∙ slice_mid name_buf v.content _

    name_decodes : IsStorable v → decode_utf16le name_buf ≡ ok v.name
    unfolding name_buf
    name_decodes storable = decode_utf16le-encode_utf16le v.name storable.name_utf8

    -- The name and the data at the offsets that parseOneVariable computes.
    read_body_lem :
        IsStorable v
        → length pre + body_size < u32_mod
        → round_up (length pre + header_size auth + length name_buf + length v.content) ≤ stop
        → read_body io buffer
            (length pre)
            stop
            auth
            var_added
            v.attributes
            (length name_buf, length v.content, v.guid)
          ≡ ok (
            some v,
            round_up (length pre + header_size auth + length name_buf + length v.content) % u32_mod,
          )
    unfolding read_body
    read_body_lem storable room aligned =
        let name_fits =
          (laws.check_bounds_iff (length pre + header_size auth) (length name_buf) stop).1
            (omega arith) in
        let data_fits =
          (laws.check_bounds_iff (length pre + header_size auth + length name_buf)
              (length v.content) stop).1
            (omega arith) in
        let buffer_fits = laws.make_bytes_within (length v.content) stop (omega arith) in
        rw
          (
            name_fits,
            data_fits,
            le→leb _ stop aligned,
            name_slice room,
            name_decodes storable,
            buffer_fits,
            content_slice room,
            copy_at-replicate v.content,
          )
          refl

    header_lem :
        IsStorable v
        → length pre + body_size < u32_mod
        → length pre + body_size ≤ stop
        → stop < u32_mod
        → parse_one_variable io buffer (length pre) stop auth
          ≡ read_body io buffer
              (length pre)
              stop
              auth
              var_added
              v.attributes
              (length name_buf % u32_mod, length v.content % u32_mod, v.guid)
    unfolding parse_one_variable uint16
    header_lem storable room fits small =
        let least = header_size_ge auth in
        let start_in = le→leb (add32 (length pre) 2) stop (omega arith) in
        let prefix_in = (laws.check_bounds_iff (length pre) 8 stop).1 (omega arith) in
        let hdr_room : length pre + header_size auth < u32_mod = omega arith in
        rw (
          start_in,
          start_bytes pre tail_bytes v.attributes _ _ v.guid stop auth hdr_room,
          prefix_in,
          state_byte pre tail_bytes v.attributes _ _ v.guid stop auth hdr_room,
          attrs_word pre tail_bytes v.attributes _ _ v.guid stop auth hdr_room
              storable.attributes_u32,
          read_fields-encode_header pre tail_bytes v.attributes (length name_buf % u32_mod)
              (length v.content % u32_mod) v.guid stop auth (omega arith) small (omega arith)
              (omega arith),
        )

  -- parseOneVariable returns the storable variable that encodeVariable wrote at an aligned offset
  -- in either record layout, and the offset behind its padding, the region being shorter than
  -- 2^32.
  pub parse_one_variable-encode_variable :
      (io : Safeio)
      → SafeioLaws io
      → (pre post : Bytes) (stop : ℕ) → IsStorable v
      → length pre % 4 ≡ 0
      → length pre + length (encode_variable auth v) ≤ stop
      → stop < u32_mod
      → parse_one_variable io (pre ++ (encode_variable auth v ++ post)) (length pre) stop auth
        ≡ ok (some v, length pre + length (encode_variable auth v))
  parse_one_variable-encode_variable io laws pre post stop storable aligned fits small =
      let sized = length-encode_variable (omega arith) in
      let room : length pre + body_size < u32_mod = omega (arith, sized) in
      let next : round_up (length pre + header_size auth + length name_buf + length v.content)
          ≡ length pre + length (encode_variable auth v) =
        omega (arith, sized, header_size_aligned auth) in
      let names : length name_buf % u32_mod ≡ length name_buf = omega arith in
      let contents : length v.content % u32_mod ≡ length v.content = omega arith in
      ap (λ b. parse_one_variable io b (length pre) stop auth) (regroup pre post)
      ∙ header_lem io laws pre post stop storable room (omega (arith, sized)) small
      ∙ ap₂
          (λ (n d : ℕ).
            read_body io (buffer io laws pre post stop) (length pre) stop auth var_added
              v.attributes (n, d, v.guid))
          names contents
      ∙ read_body_lem io laws pre post stop storable room (omega (arith, next))
      ∙ ap (λ (n : ℕ). ok (some v, n)) (omega (arith, next))
    where
      regroup :
          (pre post : Bytes)
          → pre ++ (encode_variable auth v ++ post)
            ≡ pre ++ (record_hdr ++ (name_buf ++ (v.content ++ (record_pad ++ post))))
      regroup pre post = rw encode_variable_lem (simp append_assoc)
