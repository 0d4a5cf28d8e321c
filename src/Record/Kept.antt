-- ===== src/Record/Kept.antt =====
-- uefi.go: the variables that parseOneVariable keeps, on any bytes.
use uefi.Base.{ℕ, ◌+◌, ◌<◌, Bool, Bytes, [], All, IsByte, Option, some, none}
use uefi.Base.{
  Result, Yields, yields, yields_err, yields_panic, yields_out_of_fuel, Yields-if, Yields-guard,
  Yields-bind, Yields-after, uint32_at-Yields, leb, ◌==◌, slice, index, uint16,
}
use uefi.Text.{decode_utf16le}
use uefi.Text.RoundTrip.{IsUtf8}
use uefi.Text.Decoded.{decode_utf16le-IsUtf8}
use uefi.Safeio.{Safeio}
use uefi.Variable.{u32_mod, Guid, Variable, IsStorable, var_added, variable_data}
use uefi.Record.{
  header_size, add32, round_up, read_fields, read_body, keep_name, keep_data, parse_one_variable,
}

-- A record's variable, if it is kept, can be written again.
abbrev pub IsKept : Option Variable × ℕ → Type 0
IsKept (none, next) = Unit
IsKept (some v, next) = IsStorable v

keep_data-IsKept :
    (v : Variable) (buf : Bytes) (data_off data_size next : ℕ) (room : Option Bytes)
    → IsStorable v
    → Yields IsKept (keep_data v buf data_off data_size next room)
unfolding keep_data
keep_data-IsKept v buf data_off data_size next none h = yields tt
keep_data-IsKept v buf data_off data_size next (some payload) h =
    Yields-after (slice buf data_off (add32 data_off data_size))
      (λ raw. yields (record { name_utf8 = h.name_utf8; attributes_u32 = h.attributes_u32 }))

keep_name-IsKept :
    (io : Safeio) (name : Result Bytes) (v : Variable) (buf : Bytes)
    (data_off data_size next stop : ℕ)
    → Yields IsUtf8 name
    → v.attributes < u32_mod
    → Yields IsKept (keep_name io name v buf data_off data_size next stop)
unfolding keep_name
keep_name-IsKept io _ v buf data_off data_size next stop (yields {a = name} h) small =
    keep_data-IsKept (record v { name = name }) buf data_off data_size next
      (io.make_bytes data_size stop) (record { name_utf8 = h; attributes_u32 = small })
keep_name-IsKept io _ v buf data_off data_size next stop yields_err small = yields tt
keep_name-IsKept io _ v buf data_off data_size next stop yields_panic small = yields_panic
keep_name-IsKept io _ v buf data_off data_size next stop yields_out_of_fuel small =
    yields_out_of_fuel

module _ (io : Safeio) (buf : Bytes) (off stop : ℕ) (auth : Bool) where
  read_body-IsKept :
      (state attrs : ℕ) (fields : ℕ × ℕ × Guid)
      → attrs < u32_mod
      → Yields IsKept (read_body io buf off stop auth state attrs fields)
  unfolding read_body
  read_body-IsKept state attrs (ns, ds, g) small =
      Yields-guard (io.check_bounds (off + header_size auth) ns stop) _ (λ _.
        Yields-guard (io.check_bounds (off + header_size auth + ns) ds stop) _ (λ _.
          Yields-guard (leb (round_up (off + header_size auth + ns + ds)) stop) _ (λ _.
            Yields-if (state == var_added)
              (λ _. Yields-after (slice buf _ _) (λ raw.
                keep_name-IsKept io (decode_utf16le raw)
                  (record { name = []; guid = g; attributes = attrs; content = [] }) buf _ ds _ stop
                  (decode_utf16le-IsUtf8 raw) small))
              (λ _. yields tt))))

  -- On any bytes, what parseOneVariable keeps can be written again: its name is valid UTF-8 and its
  -- attributes are a uint32.
  pub parse_one_variable-IsKept :
      All IsByte buf → Yields IsKept (parse_one_variable io buf off stop auth)
  unfolding parse_one_variable
  parse_one_variable-IsKept bytes = Yields-guard (leb (add32 off 2) stop) _ (λ _.
      Yields-after (slice buf off (add32 off 2)) (λ start. Yields-after (uint16 start) (λ start_id.
        Yields-guard (start_id == variable_data) _ (λ _.
          Yields-guard (io.check_bounds off 8 stop) _ (λ _.
            Yields-after (index buf (add32 off 2)) (λ state.
              Yields-bind (uint32_at-Yields buf (add32 off 4) bytes) (λ attrs small.
                Yields-after (read_fields buf off stop auth)
                  (λ fields. read_body-IsKept state attrs fields small))))))))
