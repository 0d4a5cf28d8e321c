-- ===== src/LoadOption/RoundTrip.antt =====
-- bootvars.go: ParseLoadOption on what Marshal wrote.
use uefi.Base.{
  ℕ, ◌+◌, ◌*◌, ◌^◌, ◌<◌, ◌≤◌, ◌≡◌, refl, sym, ap, subst, ◌∙◌, List, [], ◌∷◌, ◌++◌, Bytes, arith,
  length, length-append, append_assoc, append-nil,
}
use uefi.Base.{
  path_overflow, ok, guard, uint16-le16, uint32-le32, le16, le32, leb, ltb, le→ltb, lt→ltb,
  if◌then◌else◌, slice_from_at, slice_from_ok, slice_ok, slice_mid_at, >>=-eq-ok, ok-injective,
  drop-append,
}
use mathlib.Core.Path.{ap₂}
use uefi.Safeio.{Safeio, SafeioLaws}
use uefi.Text.{put_units}
use uefi.Text.RoundTrip.{length-put_units}
use uefi.DevicePath.{
  DevicePathNode, parse_device_path, marshal_device_path, marshal_nodes, end_node,
}
use uefi.DevicePath.RoundTrip.{parse_device_path-marshal_device_path}
use uefi.LoadOption.{
  LoadOption, parse_tail, parse_load_option, path_bytes, marshal_load_option, max_load_option_bytes,
}
use uefi.LoadOption.Description.{IsDescription, Units, IsDescription-Units, find_nul-put_units}

length-marshal_pos :
    (nodes : List DevicePathNode) (dp : Bytes) → marshal_device_path nodes ≡ ok dp → 4 ≤ length dp
unfolding marshal_device_path
length-marshal_pos nodes dp e =
    let (enc, _, whole) = >>=-eq-ok (marshal_nodes nodes) _ e in
    ground (arith, length-append enc end_node, ap (λ r. r) whole)

module _ (io : Safeio) (laws : SafeioLaws io) where
  path_read :
      (nodes : List DevicePathNode) (dp : Bytes)
      → marshal_device_path nodes ≡ ok dp
      → length (path_bytes nodes dp) ≤ max_load_option_bytes
      → (if ltb 0 (length (path_bytes nodes dp))
          then parse_device_path io (path_bytes nodes dp)
          else ok [])
        ≡ ok nodes
  path_read [] dp e small = refl
  path_read (n ∷ ns) dp e small =
      rw (lt→ltb 0 (length dp) (omega (arith, length-marshal_pos (n ∷ ns) dp e))) (
        rw append-nil at
          (parse_device_path-marshal_device_path io laws (n ∷ ns) dp [] e (rw append-nil small)))

  -- The device path and the optional data behind `pre`.
  parse_tail_lem :
      (pre dp opt desc : Bytes) (attrs : ℕ) (nodes : List DevicePathNode)
      → marshal_device_path nodes ≡ ok dp
      → length (pre ++ (path_bytes nodes dp ++ opt)) ≤ max_load_option_bytes
      → parse_tail io
          (pre ++ (path_bytes nodes dp ++ opt))
          attrs
          (length (path_bytes nodes dp))
          (length pre)
          desc
        ≡ ok (record {
          attributes = attrs;
          description = desc;
          device_path = nodes;
          optional_data = opt;
        })
  unfolding parse_tail
  parse_tail_lem pre dp opt desc attrs nodes e small =
      let path = path_bytes nodes dp in
      let buf = pre ++ (path ++ opt) in
      let size = length-append pre (path ++ opt) in
      let inner = length-append path opt in
      rw (
        (laws.check_bounds_iff (length pre) (length path) (length buf)).1
            (omega (arith, size, inner)),
        slice_mid_at pre path opt {a = length pre} {b = length pre + length path} refl refl,
        path_read nodes dp e (omega (arith, size, inner)),
        slice_from_at pre (path ++ opt) (length path) {a = length pre + length path} refl,
        slice_from_ok (path ++ opt) (length path) (omega (arith, inner)),
        drop-append path opt,
      )

  -- The blob with its parts in view: the header, the description's units and terminator, the device
  -- path and the optional data.
  abbrev blob : ℕ → List ℕ → Bytes → Bytes → Bytes
  blob attrs us path opt =
      (le32 attrs ++ le16 (length path)) ++ (put_units us ++ 0 ∷ 0 ∷ (path ++ opt))

  length-blob :
      (attrs : ℕ) (us : List ℕ) (path opt : Bytes)
      → length (blob attrs us path opt) ≡ 8 + 2 * length us + length path + length opt
  length-blob attrs us path opt = omega (
    arith,
    length-append (put_units us) (0 ∷ 0 ∷ (path ++ opt)),
    length-append path opt,
    length-put_units us,
  )

  parse_tail-blob :
      (lo : LoadOption) (us : List ℕ) (dp : Bytes)
      → marshal_device_path lo.device_path ≡ ok dp
      → length (blob lo.attributes us (path_bytes lo.device_path dp) lo.optional_data)
        ≤ max_load_option_bytes
      → parse_tail io
          (blob lo.attributes us (path_bytes lo.device_path dp) lo.optional_data)
          lo.attributes
          (length (path_bytes lo.device_path dp))
          (6 + 2 * length us + 2)
          lo.description
        ≡ ok lo
  parse_tail-blob lo us dp e small =
      let path = path_bytes lo.device_path dp in
      let hdr = le32 lo.attributes ++ le16 (length path) in
      let pre = hdr ++ (put_units us ++ 0 ∷ 0 ∷ []) in
      let whole : pre ++ (path ++ lo.optional_data) ≡ blob lo.attributes us path lo.optional_data =
        ap (λ x. hdr ++ x) (append_assoc (put_units us) (0 ∷ 0 ∷ []) (path ++ lo.optional_data)) in
      let here : length pre ≡ 6 + 2 * length us + 2 =
        omega (arith, length-append (put_units us) (0 ∷ 0 ∷ []), length-put_units us) in
      ap₂ (λ (b : Bytes) (k : ℕ). parse_tail io b lo.attributes (length path) k lo.description)
        (sym whole) (sym here)
      ∙ parse_tail_lem pre dp lo.optional_data lo.description lo.attributes lo.device_path e
          (subst (λ b. length b ≤ max_load_option_bytes) (sym whole) small)

  parse_load_option-blob :
      (lo : LoadOption) (u : Units lo.description) (dp : Bytes)
      → lo.attributes < 2 ^ 32
      → marshal_device_path lo.device_path ≡ ok dp
      → length (path_bytes lo.device_path dp) ≤ 0xffff
      → length (blob lo.attributes u.units (path_bytes lo.device_path dp) lo.optional_data)
        ≤ max_load_option_bytes
      → parse_load_option io
          (blob lo.attributes u.units (path_bytes lo.device_path dp) lo.optional_data)
        ≡ ok lo
  unfolding parse_load_option
  parse_load_option-blob lo u dp attrs_fit e path_fits small =
      let path = path_bytes lo.device_path dp in
      let hdr = le32 lo.attributes ++ le16 (length path) in
      let b = blob lo.attributes u.units path lo.optional_data in
      let size = length-blob lo.attributes u.units path lo.optional_data in
      rw
        (
          le→ltb max_load_option_bytes (length b) small,
          (laws.check_bounds_iff 0 6 (length b)).1 (omega (arith, size)),
          slice_ok b 0 4 (omega arith) (omega (arith, size)),
          uint32-le32 lo.attributes [] attrs_fit,
          slice_ok b 4 6 (omega arith) (omega (arith, size)),
          uint16-le16 (length path) [] (omega arith),
          find_nul-put_units io laws u.units hdr (path ++ lo.optional_data) (length b + 1) 0 u.inner
              (omega arith) (omega (arith, size)),
          slice_mid_at hdr (put_units u.units) (0 ∷ 0 ∷ (path ++ lo.optional_data)) {a = 6}
              {b = 6 + 2 * length u.units} refl (omega (arith, length-put_units u.units)),
          u.decodes,
        )
        (parse_tail-blob lo u.units dp e small)

  -- Whatever Marshal makes of a load option with uint32 attributes and a description of valid
  -- UTF-8 without NUL, ParseLoadOption reads the option back from it, within the 64 KiB ceiling.
  pub parse_load_option-marshal_load_option :
      (lo : LoadOption) (buf : Bytes)
      → lo.attributes < 2 ^ 32
      → IsDescription lo.description
      → marshal_load_option lo ≡ ok buf
      → length buf ≤ max_load_option_bytes
      → parse_load_option io buf ≡ ok lo
  unfolding marshal_load_option
  parse_load_option-marshal_load_option lo buf attrs_fit described e small =
      let (dp, dps, e') = >>=-eq-ok (marshal_device_path lo.device_path) _ e in
      let u = IsDescription-Units lo.description described in
      let path = path_bytes lo.device_path dp in
      let hdr = le32 lo.attributes ++ le16 (length path) in
      let (_, fits, eq) = >>=-eq-ok (guard (leb (length path) 0xffff) path_overflow) _ e' in
      let whole : buf ≡ blob lo.attributes u.units path lo.optional_data =
        ok-injective (sym eq)
        ∙ ap (λ x. hdr ++ (x ++ (path ++ lo.optional_data))) u.bytes
        ∙ ap (λ x. hdr ++ x)
            (append_assoc (put_units u.units) (0 ∷ 0 ∷ []) (path ++ lo.optional_data)) in
      rw whole (parse_load_option-blob lo u dp attrs_fit dps (ground arith) (rw whole at small))
