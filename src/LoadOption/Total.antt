-- ===== src/LoadOption/Total.antt =====
-- bootvars.go: ParseLoadOption on any bytes.
use uefi.Base.{
  ℕ, zero, suc, ◌+◌, ◌<◌, ◌≤◌, ◌&&◌, Option, some, none, [], Bytes, arith, length, length-drop,
}
use uefi.Base.{
  ok, slice_from_ok, leb, ltb, leb→le, if◌then◌else◌, ◌==◌, Ensures, returns, fails, Ensures-bind,
  Ensures-map, Ensures-guard, Ensures-if, Ensures-slice, index-Ensures, uint16-Ensures,
  uint32-Ensures, guard_tripped, option_truncated, path_beyond_buffer,
}
use uefi.Text.RoundTrip.{decode_utf16le-Ensures}
use uefi.Safeio.{Safeio, SafeioLaws}
use uefi.DevicePath.{parse_device_path}
use uefi.DevicePath.Total.{total_length, parse_device_path-Ensures}
use uefi.LoadOption.{
  LoadOption, find_nul, terminated, parse_tail, parse_load_option, max_load_option_bytes,
}

-- What a load option takes of its blob besides the description.
pub record IsWithin (size : ℕ) (lo : LoadOption) : Type 0 where
  pub parts : 8 + total_length lo.device_path + length lo.optional_data ≤ size

module _ (io : Safeio) (laws : SafeioLaws io) (b : Bytes) where
  -- A terminator lies behind the start of the scan and within the blob.
  abbrev Found : ℕ → Option ℕ → Type 0
  Found i none = Unit
  Found i (some k) = (i ≤ k) × (k + 2 ≤ length b)

  Found-later : (i : ℕ) (r : Option ℕ) → Found (i + 2) r → Found i r
  Found-later i none h = tt
  Found-later i (some k) h = omega arith

  find_nul-Ensures :
      (fuel rounds i : ℕ)
      → length b < i + fuel
      → i ≤ length b
      → Ensures (Found i) (find_nul io b fuel rounds i)
  unfolding find_nul
  find_nul-Ensures zero rounds i h o = absurd (omega arith)
  find_nul-Ensures (suc fuel) rounds i h o =
      Ensures-if (leb (i + 2) (length b))
        (λ more.
          let two = leb→le (i + 2) (length b) more in
          Ensures-guard (io.guard_next (length b + 1) rounds) guard_tripped λ _.
            Ensures-bind (index-Ensures b i (omega arith)) λ x _.
              Ensures-bind (index-Ensures b (i + 1) (omega arith)) λ y _.
                Ensures-if (x == 0 && y == 0) (λ _. returns (omega arith))
                  λ _.
                    Ensures-map (find_nul-Ensures fuel (suc rounds) (i + 2) (omega arith) two)
                      (Found-later i))
        (λ _. returns tt)

  terminated-Ensures :
      (i : ℕ) (r : Option ℕ)
      → Found i r
      → Ensures (λ k. (i ≤ k) × (k + 2 ≤ length b)) (terminated r)
  unfolding terminated
  terminated-Ensures i none h = fails
  terminated-Ensures i (some k) h = returns h

  parse_tail-Ensures :
      (attrs fp_len dp_start : ℕ) (desc : Bytes)
      → 8 ≤ dp_start
      → Ensures (IsWithin (length b)) (parse_tail io b attrs fp_len dp_start desc)
  unfolding parse_tail
  parse_tail-Ensures attrs fp_len dp_start desc least =
      Ensures-guard (io.check_bounds dp_start fp_len (length b)) path_beyond_buffer λ h.
        let path_in = (laws.check_bounds_iff dp_start fp_len (length b)).0 h in
        Ensures-slice b dp_start (dp_start + fp_len) _ (omega arith) (omega arith) λ dp size.
          Ensures-bind (nodes-Ensures dp) λ nodes within.
            rw (slice_from_ok b (dp_start + fp_len) (omega arith))
              (returns (record { parts = rw length-drop (omega arith) }))
    where
      nodes-Ensures :
          (dp : Bytes)
          → Ensures
              (λ nodes. total_length nodes ≤ length dp)
              (if ltb 0 fp_len then parse_device_path io dp else ok [])
      nodes-Ensures dp =
          Ensures-if (ltb 0 fp_len) (λ _. parse_device_path-Ensures io laws dp)
            (λ _. returns (omega arith))

  -- On any bytes ParseLoadOption ends without a panic and within its fuel, in an error or in an
  -- option whose device path and optional data fit in the blob beside the header and the
  -- terminator.
  pub parse_load_option-Ensures : Ensures (IsWithin (length b)) (parse_load_option io b)
  unfolding parse_load_option
  parse_load_option-Ensures =
      Ensures-if (ltb max_load_option_bytes (length b)) (λ _. fails)
        λ _. Ensures-guard (io.check_bounds 0 6 (length b)) option_truncated λ h.
          let six = (laws.check_bounds_iff 0 6 (length b)).0 h in
          Ensures-slice b 0 4 _ (omega arith) (omega arith) λ a four.
            Ensures-bind (uint32-Ensures a (omega arith)) λ attrs _.
              Ensures-slice b 4 6 _ (omega arith) (omega arith) λ l two.
                Ensures-bind (uint16-Ensures l (omega arith)) λ fp_len _.
                  Ensures-bind (find_nul-Ensures (length b + 1) 0 6 (omega arith) (omega arith))
                    λ found f. Ensures-bind (terminated-Ensures 6 found f) λ k inside.
                      Ensures-slice b 6 k _ (omega arith) (omega arith) λ raw _.
                        Ensures-bind (decode_utf16le-Ensures raw)
                          λ desc _. parse_tail-Ensures attrs fp_len (k + 2) desc (omega arith)
