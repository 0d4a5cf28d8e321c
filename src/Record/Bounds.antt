-- ===== src/Record/Bounds.antt =====
-- uefi.go: parseOneVariable on any bytes.
use uefi.Base.{
  ℕ, ◌+◌, ◌<◌, ◌≤◌, refl, Bool, true, false, Bytes, [], ok, err, panic, out_of_fuel, length, arith,
  Option, some, none, replicate,
}
use uefi.Base.{
  Result, end_of_region, leb, leb→le, length-copy_at, length-replicate, Ensures, returns,
  Ensures-bind, Ensures-ne-panic, Ensures-ne-out_of_fuel, Ensures-guard, Ensures-if, Ensures-slice,
  Ensures-uint32_at, uint16-Ensures, index-Ensures, ◌==◌,
}
use uefi.Record.Header.{header_size_ge}
use uefi.Text.{decode_utf16le}
use uefi.Text.RoundTrip.{decode_utf16le-Ensures}
use uefi.Safeio.{Safeio, SafeioLaws}
use uefi.Variable.{u32_mod, Guid, Variable, var_added, variable_data}
use uefi.Record.{
  header_size, add32, round_up, read_fields, name_size_at, data_size_at, guid_at, read_body,
  keep_name, keep_data, parse_one_variable,
}

-- What a parsed variable takes of the store at least.
abbrev pub footprint : Option Variable → ℕ
footprint none = 32
footprint (some v) = 32 + length v.content

-- The next record begins behind this one, within the store.
pub record Advances (off stop : ℕ) (r : Option Variable × ℕ) : Type 0 where
  pub forward : off + footprint r.0 ≤ r.1
  pub within : r.1 ≤ stop

module _ (io : Safeio) (laws : SafeioLaws io) (buf : Bytes) (off stop : ℕ) where
  read_fields-Ensures :
      (auth : Bool)
      → off ≤ stop
      → stop ≤ length buf
      → stop + 60 < u32_mod
      → Ensures (λ _. Unit {0}) (read_fields buf off stop auth)
  unfolding read_fields
  read_fields-Ensures auth start fits small =
      Ensures-guard (leb (add32 off (header_size auth)) stop) _ λ h.
        let room = fields_within auth start small (leb→le _ _ h) in
        Ensures-uint32_at buf _ _ (omega (arith, room)) λ _.
          Ensures-uint32_at buf _ _ (omega (arith, room)) λ _.
            Ensures-slice buf _ _ _ (omega (arith, room)) (omega (arith, room)) λ _ _. returns tt
    where
      fields_within :
          (auth : Bool)
          → off ≤ stop
          → stop + 60 < u32_mod
          → add32 off (header_size auth) ≤ stop
          → (add32 off (name_size_at auth) + 4 ≤ stop)
            × (add32 off (data_size_at auth) + 4 ≤ stop)
            × (add32 off (guid_at auth) ≤ add32 off (header_size auth))
            × (off + header_size auth ≤ stop)
      fields_within true start small h = omega arith
      fields_within false start small h = omega arith

  keep_data-Ensures :
      (v : Variable) (data_off data_size next : ℕ)
      → data_off + data_size ≤ stop
      → stop ≤ length buf
      → stop + 60 < u32_mod
      → off + 32 + data_size ≤ next
      → next ≤ stop
      → Ensures
          (Advances off stop)
          (keep_data v buf data_off data_size next (some (replicate data_size 0)))
  unfolding keep_data
  keep_data-Ensures v data_off data_size next fits len small fwd win =
      Ensures-slice buf _ _ _ (omega arith) (omega arith) λ raw size. returns (record {
        forward =
            rw (length-copy_at (replicate data_size 0) 0 raw)
              (omega (arith, length-replicate {A = ℕ} data_size 0));
        within = win;
      })

  keep_name-Ensures :
      (name : Result Bytes) (v : Variable) (data_off data_size next : ℕ)
      → Ensures (λ _. Unit {0}) name
      → data_off + data_size ≤ stop
      → stop ≤ length buf
      → stop + 60 < u32_mod
      → off + 32 + data_size ≤ next
      → next ≤ stop
      → Ensures (Advances off stop) (keep_name io name v buf data_off data_size next stop)
  unfolding keep_name
  keep_name-Ensures (ok name) v data_off data_size next e fits len small fwd win =
      rw (laws.make_bytes_within data_size stop (omega arith)) (
        keep_data-Ensures (record v { name = name }) data_off data_size next fits len small fwd win)
  keep_name-Ensures (err x) v data_off data_size next e fits len small fwd win =
      returns (omega arith)
  keep_name-Ensures panic v data_off data_size next e fits len small fwd win =
      absurd (Ensures-ne-panic e refl)
  keep_name-Ensures out_of_fuel v data_off data_size next e fits len small fwd win =
      absurd (Ensures-ne-out_of_fuel e refl)

  read_body-Ensures :
      (auth : Bool) (state attrs : ℕ) (fields : ℕ × ℕ × Guid)
      → stop ≤ length buf
      → stop + 60 < u32_mod
      → Ensures (Advances off stop) (read_body io buf off stop auth state attrs fields)
  unfolding read_body
  read_body-Ensures auth state attrs (ns, ds, g) len small =
      let least = header_size_ge auth in
      Ensures-guard (io.check_bounds (off + header_size auth) ns stop) _ λ a.
        Ensures-guard (io.check_bounds (off + header_size auth + ns) ds stop) _ λ b.
          Ensures-guard (leb (round_up (off + header_size auth + ns + ds)) stop) _ λ c.
            let name_in = (laws.check_bounds_iff (off + header_size auth) ns stop).0 a in
            let data_in = (laws.check_bounds_iff (off + header_size auth + ns) ds stop).0 b in
            let next_in = leb→le _ _ c in
            Ensures-if (state == var_added)
              (λ _. Ensures-slice buf _ _ _ (omega arith) (omega arith) λ raw _.
                keep_name-Ensures (decode_utf16le raw)
                  (record { name = []; guid = g; attributes = attrs; content = [] }) _ ds _
                  (decode_utf16le-Ensures raw) (omega arith) len small (omega arith) (omega arith))
              (λ _. returns (omega arith))

  -- On any bytes, at an offset within a region that lies in the buffer and ends 60 below 2^32,
  -- parseOneVariable does not panic, and the next offset lies behind what it took and within the
  -- region.
  pub parse_one_variable-Ensures :
      (auth : Bool)
      → off ≤ stop
      → stop ≤ length buf
      → stop + 60 < u32_mod
      → Ensures (Advances off stop) (parse_one_variable io buf off stop auth)
  unfolding parse_one_variable
  parse_one_variable-Ensures auth start len small = Ensures-guard (leb (add32 off 2) stop) _ λ a.
      let two_in = leb→le _ _ a in
      Ensures-slice buf _ _ _ (omega arith) (omega arith) λ raw two.
        Ensures-bind (uint16-Ensures raw (omega arith)) λ id _.
          Ensures-guard (id == variable_data) end_of_region λ _.
            Ensures-guard (io.check_bounds off 8 stop) _ λ b.
              let eight_in = (laws.check_bounds_iff off 8 stop).0 b in
              Ensures-bind (index-Ensures buf (add32 off 2) (omega arith)) λ state _.
                Ensures-uint32_at buf (add32 off 4) _ (omega arith) λ attrs.
                  Ensures-bind (read_fields-Ensures auth start len small)
                    λ fields _. read_body-Ensures auth state attrs fields len small
