-- ===== src/LoadOption/Description.antt =====
-- The description of a load option: a NUL-terminated UCS-2 string, found by a scan.
use uefi.Base.{
  ℕ, zero, suc, ◌+◌, ◌*◌, ◌/◌, ◌%◌, ◌<◌, ◌≤◌, ◌≡◌, refl, ap, ◌∙◌, false, ◌&&◌, some, List, [], ◌∷◌,
  ◌++◌, Bytes, arith, All, All-append, length, length-append, append_assoc,
}
use uefi.Base.{ok, index, index_at, le16, le→leb, if◌then◌else◌, ◌==◌}
use uefi.Safeio.{Safeio, SafeioLaws}
use uefi.Text.{put_units, drop_nul, decode_utf16le, encode_utf16le}
use uefi.Text.Utf8.{IsScalar, string}
use uefi.Text.Utf16.{utf16_encode, utf16_decode, encode_unit}
use uefi.Text.RoundTrip.{
  get_units-put_units, length-put_units, runes-string, utf16_decode-utf16_encode,
}
use uefi.LoadOption.{find_nul}

-- A description that a load option can carry: valid UTF-8 with no NUL in it.
abbrev pub IsDescription : Bytes → Type 0
IsDescription s = (rs : List ℕ) × All (λ r. IsScalar r × 0 < r) rs × (s ≡ string rs)

-- A UTF-16 unit that is no terminator.
abbrev pub IsInner : ℕ → Type 0
IsInner u = (0 < u) × (u < 65536)

encode_unit-IsInner : (r : ℕ) → IsScalar r → 0 < r → All IsInner (encode_unit r)
unfolding encode_unit
encode_unit-IsInner r h p = ground arith

utf16_encode-IsInner :
    (rs : List ℕ) → All (λ r. IsScalar r × 0 < r) rs → All IsInner (utf16_encode rs)
unfolding utf16_encode
utf16_encode-IsInner [] h = tt
utf16_encode-IsInner (r ∷ rs) (h, hs) =
    All-append IsInner (encode_unit r) _ (encode_unit-IsInner r h.0 h.1)
      (utf16_encode-IsInner rs hs)

put_units-append : (us vs : List ℕ) → put_units (us ++ vs) ≡ put_units us ++ put_units vs
unfolding put_units
put_units-append [] vs = refl
put_units-append (u ∷ us) vs = rw (put_units-append us vs)

pub drop_nul-IsInner : (us : List ℕ) → All IsInner us → drop_nul us ≡ us
unfolding drop_nul
drop_nul-IsInner [] h = refl
drop_nul-IsInner (u ∷ []) h = ground arith
drop_nul-IsInner (u ∷ v ∷ us) (h, hs) = ap (λ t. u ∷ t) (drop_nul-IsInner (v ∷ us) hs)

All-IsUnit : (us : List ℕ) → All IsInner us → All (λ u. u < 65536) us
All-IsUnit [] h = tt
All-IsUnit (u ∷ us) (h, hs) = (h.1, All-IsUnit us hs)

decode_inner :
    (us : List ℕ) → All IsInner us → decode_utf16le (put_units us) ≡ ok (string (utf16_decode us))
unfolding decode_utf16le
decode_inner us h =
    let even : length (put_units us) % 2 ≡ 0 = omega (arith, length-put_units us) in
    rw (even, get_units-put_units us (All-IsUnit us h), drop_nul-IsInner us h)

-- The units of a description, without the terminator.
pub record Units (s : Bytes) : Type 0 where
  pub units : List ℕ
  pub inner : All IsInner units
  pub bytes : encode_utf16le s ≡ put_units units ++ 0 ∷ 0 ∷ []
  pub decodes : decode_utf16le (put_units units) ≡ ok s

pub IsDescription-Units : (s : Bytes) → IsDescription s → Units s
unfolding encode_utf16le
IsDescription-Units s (rs, h, e) = record {
  units = utf16_encode rs;
  inner = inner;
  bytes = rw (e, runes-string rs scalars) (put_units-append (utf16_encode rs) (0 ∷ []));
  decodes = decode_inner (utf16_encode rs) inner ∙ rw (utf16_decode-utf16_encode rs scalars, e);
}
  where
    inner : All IsInner (utf16_encode rs)
    inner = utf16_encode-IsInner rs h

    all_scalars : (rs : List ℕ) → All (λ r. IsScalar r × 0 < r) rs → All IsScalar rs
    all_scalars [] h = tt
    all_scalars (r ∷ rs) (h, hs) = (h.0, all_scalars rs hs)

    scalars : All IsScalar rs
    scalars = all_scalars rs h

module _ (io : Safeio) (laws : SafeioLaws io) where
  -- One round of the scan.
  find_nul_step :
      (pre tail : Bytes) (lo hi fuel rounds : ℕ)
      → rounds ≤ length pre
      → find_nul io (pre ++ (lo ∷ hi ∷ tail)) (suc fuel) rounds (length pre) ≡ (
          if lo == 0 && hi == 0
          then ok (some (length pre))
          else find_nul io (pre ++ (lo ∷ hi ∷ tail)) fuel (suc rounds) (length pre + 2))
  unfolding find_nul index
  find_nul_step pre tail lo hi fuel rounds guarded =
      let b = pre ++ (lo ∷ hi ∷ tail) in
      let size = length-append pre (lo ∷ hi ∷ tail) in
      rw (
        le→leb (length pre + 2) (length b) (omega (arith, size)),
        laws.guard_next_within (length b + 1) rounds (omega (arith, size)),
        index_at pre (lo ∷ hi ∷ tail) 0 {a = length pre} (omega arith),
        index_at pre (lo ∷ hi ∷ tail) 1 {a = length pre + 1} refl,
      )

  nonzero_unit : (u : ℕ) → IsInner u → (u % 256 == 0 && u / 256 % 256 == 0) ≡ false
  nonzero_unit u h = ground arith

  -- The scan stops at the terminator behind the units.
  pub find_nul-put_units :
      (us : List ℕ) (pre rest : Bytes) (fuel rounds : ℕ)
      → All IsInner us
      → rounds ≤ length pre
      → length us < fuel
      → find_nul io (pre ++ (put_units us ++ 0 ∷ 0 ∷ rest)) fuel rounds (length pre)
        ≡ ok (some (length pre + 2 * length us))
  unfolding put_units
  find_nul-put_units us pre rest zero rounds h guarded fuelled = absurd (omega arith)
  find_nul-put_units [] pre rest (suc fuel) rounds h guarded fuelled =
      find_nul_step pre rest 0 0 fuel rounds guarded ∙ ap (λ (n : ℕ). ok (some n)) (omega arith)
  find_nul-put_units (u ∷ us) pre rest (suc fuel) rounds (h, hs) guarded fuelled =
      let two = le16 u in
      let tail = put_units us ++ 0 ∷ 0 ∷ rest in
      let two_more : length pre + 2 + 2 * length us ≡ length pre + 2 * suc (length us) =
        omega arith in
      let front : length (pre ++ two) ≡ length pre + 2 = omega (arith, length-append pre two) in
      let ih =
        find_nul-put_units us (pre ++ two) rest fuel (suc rounds) hs (omega (arith, front))
          (omega arith) in
      find_nul_step pre tail (u % 256) (u / 256 % 256) fuel rounds guarded
      ∙ rw (nonzero_unit u h)
          ((rw (append_assoc pre two tail, front) at ih) ∙ ap (λ (n : ℕ). ok (some n)) two_more)
