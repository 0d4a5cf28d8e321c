-- ===== src/Record/Torn.antt =====
-- uefi.go: parseOneVariable on a record of encodeVariable whose end is missing.
use uefi.Base.{
  ℕ, ◌+◌, ◌%◌, ◌<◌, ◌≤◌, ◌≡◌, ap, ◌∙◌, Bool, true, false, Bytes, ◌++◌, arith, length, take,
  take-append_ge, Bool-cases, inl, inr, subst,
}
use uefi.Base.{
  Result, ok, Yields, yields_err, Yields-guard, Yields-after, Yields-after_eq, Yields-ok, leb, ltb,
  leb→le, ◌==◌, slice, index, uint16, uint32_at,
}
use uefi.Safeio.{Safeio}
use uefi.Variable.{u32_mod, Guid, Variable, variable_data}
use uefi.Record.{
  header_size, add32, round_up, read_fields, read_body, encode_variable, parse_one_variable,
}
use uefi.Record.Header.{read_fields-encode_header, length-encode_header}
use uefi.Record.RoundTrip.{
  name_buf, record_hdr, encode_variable_lem, length-encode_variable, header_size_aligned,
}

-- The run gives no value.
abbrev pub NoValue {ℓ} : {A : Type ℓ} → Result A → Type ℓ
NoValue r = Yields (λ _. ⊥) r

module _ (io : Safeio) (buf : Bytes) (off stop : ℕ) (auth : Bool) where
  -- A record gives no value where its fields give none for its body.
  through_fields :
      ((state attrs : ℕ) (fields : ℕ × ℕ × Guid)
        → read_fields buf off stop auth ≡ ok fields
        → NoValue (read_body io buf off stop auth state attrs fields))
      → NoValue (parse_one_variable io buf off stop auth)
  unfolding parse_one_variable
  through_fields body = Yields-guard (leb (add32 off 2) stop) _ (λ _.
      Yields-after (slice buf off (add32 off 2)) (λ start. Yields-after (uint16 start) (λ start_id.
        Yields-guard (start_id == variable_data) _ (λ _.
          Yields-guard (io.check_bounds off 8 stop) _ (λ _.
            Yields-after (index buf (add32 off 2)) (λ state.
              Yields-after (uint32_at buf (add32 off 4))
                (λ attrs. Yields-after_eq (read_fields buf off stop auth) (body state attrs))))))))

  no_fields :
      stop < off + header_size auth
      → off ≤ stop
      → stop + 60 < u32_mod
      → NoValue (read_fields buf off stop auth)
  unfolding read_fields
  no_fields short start small = rw (beyond auth short) yields_err
    where
      beyond :
          (auth : Bool)
          → stop < off + header_size auth
          → leb (add32 off (header_size auth)) stop ≡ false
      beyond true h = ground arith
      beyond false h = ground arith

  -- The header is cut.
  header_cut :
      stop < off + header_size auth
      → off ≤ stop
      → stop + 60 < u32_mod
      → NoValue (parse_one_variable io buf off stop auth)
  header_cut short start small =
      through_fields (λ state attrs fields e. absurd (Yields-ok (no_fields short start small) e))

  no_body :
      (state attrs ns ds : ℕ) (g : Guid)
      → stop < round_up (off + header_size auth + ns + ds)
      → NoValue (read_body io buf off stop auth state attrs (ns, ds, g))
  unfolding read_body
  no_body state attrs ns ds g short =
      Yields-guard (io.check_bounds (off + header_size auth) ns stop) _ (λ _.
        Yields-guard (io.check_bounds (off + header_size auth + ns) ds stop) _ (λ _.
          Yields-guard (leb (round_up (off + header_size auth + ns + ds)) stop) _
            (λ within. absurd (omega (arith, leb→le _ _ within, short)))))

  -- The body is cut.
  body_cut :
      (ns ds : ℕ) (g : Guid)
      → read_fields buf off stop auth ≡ ok (ns, ds, g)
      → stop < round_up (off + header_size auth + ns + ds)
      → NoValue (parse_one_variable io buf off stop auth)
  body_cut ns ds g fields_read short = through_fields (λ state attrs fields e.
      subst (λ f. NoValue (read_body io buf off stop auth state attrs f)) (cc)
        (no_body state attrs ns ds g short))

-- A record cut behind its header.
take-encode_variable :
    (auth : Bool) (v : Variable) (k : ℕ)
    → header_size auth ≤ k
    → (tail : Bytes) × (take k (encode_variable auth v) ≡ record_hdr auth v ++ tail)
take-encode_variable auth v k h = (
  _,
  ap (take k) (encode_variable_lem auth v)
      ∙ take-append_ge k (record_hdr auth v) _ (
          omega (
            arith,
            length-encode_header auth v.attributes (length (name_buf auth v) % u32_mod)
                (length v.content % u32_mod) v.guid,
          )),
)

-- parseOneVariable gives no variable for a record whose end is missing.
pub parse_one_variable_torn :
    (io : Safeio) (auth : Bool) (v : Variable) (pre : Bytes) (k : ℕ)
    → k < length (encode_variable auth v)
    → length pre % 4 ≡ 0
    → length pre + length (encode_variable auth v) + 60 < u32_mod
    → NoValue (
        parse_one_variable io
          (pre ++ take k (encode_variable auth v))
          (length pre)
          (length pre + k)
          auth)
parse_one_variable_torn io auth v pre k cut aligned small =
    elim (Bool-cases (ltb k (header_size auth))) [
      | inl short ↦
          header_cut io _ (length pre) (length pre + k) auth (ground arith) (omega arith)
            (omega arith)
      | inr long ↦
          let (tail, e) = take-encode_variable auth v k (ground arith) in
          let sized = length-encode_variable auth v (omega arith) in
          rw e (
            body_cut io (pre ++ (record_hdr auth v ++ tail)) (length pre) (length pre + k) auth
              (length (name_buf auth v) % u32_mod) (length v.content % u32_mod) v.guid
              (read_fields-encode_header pre tail v.attributes _ _ v.guid (length pre + k) auth
                (ground arith) (omega arith) (omega arith) (omega arith))
              (omega (arith, sized, header_size_aligned auth)))
    ]
