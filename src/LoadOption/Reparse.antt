-- ===== src/LoadOption/Reparse.antt =====
-- bootvars.go: Marshal on what ParseLoadOption returned.
use uefi.Base.{
  ℕ, ◌+◌, ◌-◌, ◌^◌, ◌<◌, ◌≤◌, ◌≡◌, refl, ap, subst, Bool-cases, inl, inr, List, [], ◌∷◌, ◌++◌,
  Bytes, IsByte, arith, All, length, length-append, length-take, length-drop, drop,
}
use uefi.Base.{
  ok, ◌>>=◌, leb, ltb, le→leb, if◌then◌else◌, le16, le32, slice, slice_from, slice→take,
  slice-IsByte, uint16-Yields, uint32-Yields, Yields, yields, yields_err, yields_panic, Yields-if,
  Yields-guard, Yields-bind, Yields-after_eq, Yields-ok, path_beyond_buffer, option_truncated,
  Option, some, none, ok-injective,
}
use uefi.Safeio.{Safeio, SafeioLaws}
use uefi.Text.{encode_utf16le, decode_utf16le, get_units}
use uefi.DevicePath.{
  DevicePathNode, parse_device_path, marshal_device_path, marshal_nodes, end_node,
}
use uefi.DevicePath.Reparse.{marshal_device_path-parse_device_path}
use uefi.LoadOption.{
  LoadOption, terminated, parse_tail, parse_load_option, path_bytes, marshal_load_option,
  max_load_option_bytes,
}
use uefi.LoadOption.Description.{IsDescription}
use uefi.LoadOption.Scanned.{Scanned, find_nul-Scanned, decode_utf16le-IsDescription}
use uefi.LoadOption.RoundTrip.{parse_load_option-marshal_load_option}

-- An option that Marshal writes in at most `size` bytes, and that can be read again.
pub record IsRewritable (size : ℕ) (lo : LoadOption) : Type 0 where
  pub attributes_u32 : lo.attributes < 2 ^ 32
  pub described : IsDescription lo.description
  pub path : Bytes
  pub marshals : marshal_device_path lo.device_path ≡ ok path
  pub path_u16 : length (path_bytes lo.device_path path) ≤ 0xffff
  pub room :
      6
        + length (encode_utf16le lo.description)
        + length (path_bytes lo.device_path path)
        + length lo.optional_data
      ≤ size

length-path_bytes :
    (nodes : List DevicePathNode) (path : Bytes) → length (path_bytes nodes path) ≤ length path
length-path_bytes [] path = omega arith
length-path_bytes (n ∷ ns) path = omega arith

module _ (io : Safeio) (laws : SafeioLaws io) (b : Bytes) (bytes : All IsByte b) where
  -- The nodes that were read, written again.
  path_again :
      (fp_len : ℕ) (dp : Bytes) (nodes : List DevicePathNode)
      → length dp ≤ fp_len
      → (if ltb 0 fp_len then parse_device_path io dp else ok []) ≡ ok nodes
      → (path : Bytes) × (marshal_device_path nodes ≡ ok path)
        × (length (path_bytes nodes path) ≤ fp_len)
  path_again fp_len dp nodes short e = elim (Bool-cases (ltb 0 fp_len)) [
    | inl some_bytes ↦
        let (path, made, size, _) =
          marshal_device_path-parse_device_path io laws dp nodes (rw some_bytes at e) in
        (path, made, omega (arith, size, length-path_bytes nodes path))
    | inr no_bytes ↦
        let empty : [] ≡ nodes = ok-injective (rw no_bytes at e) in
        subst
          (λ ns.
            (path : Bytes) × (marshal_device_path ns ≡ ok path)
            × (length (path_bytes ns path) ≤ fp_len))
          empty no_path
  ]
    where
      no_path :
          (path : Bytes) × (marshal_device_path [] ≡ ok path)
          × (length (path_bytes [] path) ≤ fp_len)
      no_path = (end_node, unfold marshal_device_path marshal_nodes in refl, omega arith)

  parse_tail-IsRewritable :
      (attrs fp_len dp_start : ℕ) (desc : Bytes)
      → attrs < 2 ^ 32
      → fp_len < 2 ^ 16
      → IsDescription desc
      → 6 + length (encode_utf16le desc) ≤ dp_start
      → Yields (IsRewritable (length b)) (parse_tail io b attrs fp_len dp_start desc)
  unfolding parse_tail slice_from
  parse_tail-IsRewritable attrs fp_len dp_start desc attrs_fit fp_fit described start =
      Yields-guard (io.check_bounds dp_start fp_len (length b)) path_beyond_buffer (λ h.
        let path_in = (laws.check_bounds_iff dp_start fp_len (length b)).0 h in
        Yields-after_eq (slice b dp_start (dp_start + fp_len)) (λ dp cut.
          let short : length dp ≤ fp_len = omega (
            arith,
            ap length (slice→take b dp_start (dp_start + fp_len) cut),
            length-take (dp_start + fp_len - dp_start) (drop dp_start b),
          ) in
          Yields-after_eq (if ltb 0 fp_len then parse_device_path io dp else ok []) (λ nodes read.
            let (path, made, size) = path_again fp_len dp nodes short read in
            Yields-bind {Q = λ opt. length opt + (dp_start + fp_len) ≤ length b}
              (Yields-if (leb (dp_start + fp_len) (length b))
                (λ _. yields (omega (arith, length-drop (dp_start + fp_len) b)))
                (λ _. yields_panic))
              (λ opt behind. yields (record {
                attributes_u32 = attrs_fit;
                described = described;
                path = path;
                marshals = made;
                path_u16 = omega (arith, size);
                room = omega (arith, size, behind);
              })))))

  parse_load_option-IsRewritable : Yields (IsRewritable (length b)) (parse_load_option io b)
  unfolding parse_load_option
  parse_load_option-IsRewritable =
      Yields-if (ltb max_load_option_bytes (length b)) (λ _. yields_err)
        (λ _. Yields-guard (io.check_bounds 0 6 (length b)) option_truncated (λ _.
          Yields-bind (slice-IsByte b 0 4 bytes) (λ a four.
            Yields-bind (uint32-Yields a four) (λ attrs attrs_fit.
              Yields-bind (slice-IsByte b 4 6 bytes) (λ l two.
                Yields-bind (uint16-Yields l two) (λ fp_len fp_fit.
                  Yields-bind (find_nul-Scanned io b bytes (length b + 1) 0 6)
                    (λ found scanned. from_scan attrs fp_len attrs_fit fp_fit found scanned)))))))
    where
      from_scan :
          (attrs fp_len : ℕ)
          → attrs < 2 ^ 32
          → fp_len < 2 ^ 16
          → (found : Option ℕ) → Scanned io b bytes 6 found
          → Yields (IsRewritable (length b)) (
              terminated found >>= λ k. slice b 6 k >>= λ raw.
              decode_utf16le raw >>= λ desc. parse_tail io b attrs fp_len (k + 2) desc)
      from_scan attrs fp_len attrs_fit fp_fit none scanned = unfold terminated in yields_err
      from_scan attrs fp_len attrs_fit fp_fit (some k) (later, room, inner, size) =
          unfold terminated in
          Yields-after_eq (slice b 6 k) (λ raw cut.
            let same = slice→take b 6 k cut in
            Yields-after_eq (decode_utf16le raw) (λ desc decoded.
              let (described, short) =
                decode_utf16le-IsDescription raw desc (rw same inner) decoded in
              parse_tail-IsRewritable attrs fp_len (k + 2) desc attrs_fit fp_fit described
                (omega (arith, size, short, ap (λ x. length (get_units x)) same))))

  -- What ParseLoadOption makes of any bytes, Marshal writes in at most as many, and
  -- ParseLoadOption reads the same option back from that.
  pub marshal_load_option-parse_load_option :
      (lo : LoadOption)
      → parse_load_option io b ≡ ok lo
      → (buf : Bytes) × (marshal_load_option lo ≡ ok buf)
        × (length buf ≤ length b)
        × (parse_load_option io buf ≡ ok lo)
  marshal_load_option-parse_load_option lo e =
      let r = Yields-ok parse_load_option-IsRewritable e in
      let dp = path_bytes lo.device_path r.path in
      let buf =
        (le32 lo.attributes ++ le16 (length dp))
        ++ (encode_utf16le lo.description ++ (dp ++ lo.optional_data)) in
      let made : marshal_load_option lo ≡ ok buf =
        unfold marshal_load_option in rw (r.marshals, le→leb (length dp) 0xffff r.path_u16) in
      let size : length buf ≤ length b = omega (
        arith,
        length-append (encode_utf16le lo.description) (dp ++ lo.optional_data),
        length-append dp lo.optional_data,
        r,
      ) in
      (
        buf,
        made,
        size,
        parse_load_option-marshal_load_option io laws lo buf r.attributes_u32 r.described made
            (omega (arith, size, within)),
      )
    where
      within : length b ≤ max_load_option_bytes
      within = elim (Bool-cases (ltb max_load_option_bytes (length b))) [
        | inl long ↦ unfold parse_load_option in cc (rw (parse_load_option, long) at e)
        | inr short ↦ ground arith
      ]
