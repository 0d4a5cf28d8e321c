-- ===== src/Text/RoundTrip.antt =====
-- uefi.go: DecodeUTF16LE on what EncodeUTF16LE wrote.
use uefi.Base.{ℕ, ◌+◌, ◌-◌, ◌*◌, ◌/◌, ◌%◌, ◌≤◌, ◌<◌, ◌≡◌, refl, ap, ◌∙◌, arith, List, [], ◌∷◌, ◌++◌}
use uefi.Base.{Bytes, Ensures, Ensures-guard, returns, ok, length, All, All-append, ◌==◌}
use mathlib.Core.Path.{ap₂}
use native.Mathlib.Decide.{dec_lt}
use uefi.Text.{put_units, get_units, drop_nul, encode_utf16le, decode_utf16le}
use uefi.Text.Utf8.{IsScalar, encode_rune, string, runes, runes_from, decode_rune}
use uefi.Text.Utf16.{encode_unit, utf16_encode, utf16_decode}

abbrev IsUnit : ℕ → Type 0
IsUnit u = u < 65536

pub decode_one : (r : ℕ) (rest : Bytes) → r < 0x80 → decode_rune r rest ≡ (r, 0)
unfolding decode_rune
decode_one r [] h = ground arith
decode_one r (c ∷ []) h = ground arith
decode_one r (c ∷ d ∷ []) h = ground arith
decode_one r (c ∷ d ∷ e ∷ rest) h = ground arith

decode_two :
    (r : ℕ) (rest : Bytes)
    → 0x80 ≤ r
    → r < 0x800
    → decode_rune (192 + r / 64) ((128 + r % 64) ∷ rest) ≡ (r, 1)
unfolding decode_rune
decode_two r [] h k = ground arith
decode_two r (c ∷ []) h k = ground arith
decode_two r (c ∷ d ∷ rest) h k = ground arith

decode_three :
    (r : ℕ) (rest : Bytes)
    → 0x800 ≤ r
    → r < 0x10000
    → IsScalar r
    → decode_rune (224 + r / 4096) ((128 + r / 64 % 64) ∷ (128 + r % 64) ∷ rest) ≡ (r, 2)
unfolding decode_rune
decode_three r [] h k s = ground arith
decode_three r (c ∷ rest) h k s = ground arith

decode_four :
    (r : ℕ) (rest : Bytes)
    → 0x10000 ≤ r
    → r < 0x110000
    → decode_rune
        (240 + r / 262144)
        ((128 + r / 4096 % 64) ∷ (128 + r / 64 % 64) ∷ (128 + r % 64) ∷ rest)
      ≡ (r, 3)
unfolding decode_rune
decode_four r rest h k = ground arith

pub encode_rune_one : (r : ℕ) → r < 0x80 → encode_rune r ≡ r ∷ []
unfolding encode_rune
encode_rune_one r h = ground arith

encode_rune_two :
    (r : ℕ) → 0x80 ≤ r → r < 0x800 → encode_rune r ≡ (192 + r / 64) ∷ (128 + r % 64) ∷ []
unfolding encode_rune
encode_rune_two r h k = ground arith

encode_rune_three :
    (r : ℕ)
    → 0x800 ≤ r
    → r < 0x10000
    → IsScalar r
    → encode_rune r ≡ (224 + r / 4096) ∷ (128 + r / 64 % 64) ∷ (128 + r % 64) ∷ []
unfolding encode_rune
encode_rune_three r h k s = ground arith

encode_rune_four :
    (r : ℕ)
    → 0x10000 ≤ r
    → r < 0x110000
    → encode_rune r
      ≡ (240 + r / 262144) ∷ (128 + r / 4096 % 64) ∷ (128 + r / 64 % 64) ∷ (128 + r % 64) ∷ []
unfolding encode_rune
encode_rune_four r h k = ground arith

runes_from-encode_rune :
    (r : ℕ) (rest : Bytes)
    → IsScalar r
    → runes_from 0 (encode_rune r ++ rest) ≡ r ∷ runes_from 0 rest
unfolding runes_from
runes_from-encode_rune r rest s = elim (dec_lt r 0x80) [
  | yes a ↦ rw (encode_rune_one r a, decode_one r rest a)
  | no a ↦ elim (dec_lt r 0x800) [
    | yes b ↦ rw (encode_rune_two r (omega arith) b, decode_two r rest (omega arith) b)
    | no b ↦ elim (dec_lt r 0x10000) [
      | yes c ↦ rw (encode_rune_three r (omega arith) c s, decode_three r rest (omega arith) c s)
      | no c ↦
          let top : r < 0x110000 = omega arith in
          rw (encode_rune_four r (omega arith) top, decode_four r rest (omega arith) top)
    ]
  ]
]

-- `[]rune(string(rs)) == rs` for scalar values.
pub runes-string : (rs : List ℕ) → All IsScalar rs → runes (string rs) ≡ rs
unfolding runes string
runes-string [] h = refl
runes-string (r ∷ rs) (h, hs) =
    runes_from-encode_rune r (string rs) h ∙ ap (λ t. r ∷ t) (runes-string rs hs)

utf16_decode_single :
    (u : ℕ) (us : List ℕ) → IsScalar u → utf16_decode (u ∷ us) ≡ u ∷ utf16_decode us
unfolding utf16_decode
utf16_decode_single u [] h = ground arith
utf16_decode_single u (v ∷ us) h = ground arith

utf16_decode_pair :
    (r : ℕ) (us : List ℕ)
    → 0x10000 ≤ r
    → r < 0x110000
    → utf16_decode ((0xd800 + (r - 0x10000) / 1024 % 1024) ∷ (0xdc00 + (r - 0x10000) % 1024) ∷ us)
      ≡ r ∷ utf16_decode us
unfolding utf16_decode
utf16_decode_pair r us h k = ground arith

utf16_decode-encode_unit :
    (r : ℕ) (us : List ℕ) → IsScalar r → utf16_decode (encode_unit r ++ us) ≡ r ∷ utf16_decode us
utf16_decode-encode_unit r us h = elim (dec_lt r 0x10000) [
  | yes a ↦ rw (single a) (utf16_decode_single r us h)
  | no a ↦ rw (pair a) (utf16_decode_pair r us (omega arith) (omega arith))
]
  where
    single : r < 0x10000 → encode_unit r ≡ r ∷ []
    single a = unfold encode_unit in ground arith

    pair :
        ¬ (r < 0x10000)
        → encode_unit r
          ≡ (0xd800 + (r - 0x10000) / 1024 % 1024) ∷ (0xdc00 + (r - 0x10000) % 1024) ∷ []
    pair a = unfold encode_unit in ground arith

-- utf16.Decode undoes utf16.Encode on scalar values.
pub utf16_decode-utf16_encode :
    (rs : List ℕ) → All IsScalar rs → utf16_decode (utf16_encode rs) ≡ rs
unfolding utf16_encode
utf16_decode-utf16_encode [] h = unfold utf16_decode in refl
utf16_decode-utf16_encode (r ∷ rs) (h, hs) =
    utf16_decode-encode_unit r (utf16_encode rs) h
    ∙ ap (λ t. r ∷ t) (utf16_decode-utf16_encode rs hs)

encode_unit-IsUnit : (r : ℕ) → All IsUnit (encode_unit r)
unfolding encode_unit
encode_unit-IsUnit r = ground arith

pub utf16_encode-IsUnit : (rs : List ℕ) → All IsUnit (utf16_encode rs)
unfolding utf16_encode
utf16_encode-IsUnit [] = tt
utf16_encode-IsUnit (r ∷ rs) =
    All-append IsUnit (encode_unit r) _ (encode_unit-IsUnit r) (utf16_encode-IsUnit rs)

pub get_units-put_units : (us : List ℕ) → All IsUnit us → get_units (put_units us) ≡ us
unfolding get_units put_units
get_units-put_units [] h = refl
get_units-put_units (u ∷ us) (h, hs) = ap₂ ◌∷◌ (omega arith) (get_units-put_units us hs)

drop_nul-append : (us : List ℕ) → drop_nul (us ++ 0 ∷ []) ≡ us
unfolding drop_nul
drop_nul-append [] = refl
drop_nul-append (u ∷ []) = refl
drop_nul-append (u ∷ v ∷ us) = ap (λ t. u ∷ t) (drop_nul-append (v ∷ us))

pub length-put_units : (us : List ℕ) → length (put_units us) ≡ 2 * length us
unfolding put_units
length-put_units [] = omega arith
length-put_units (u ∷ us) = omega (arith, length-put_units us)

-- A Go string that is valid UTF-8: it holds the scalar values `rs`.
abbrev pub IsUtf8 : Bytes → Type 0
IsUtf8 s = (rs : List ℕ) × All IsScalar rs × (s ≡ string rs)

pub decode_utf16le_units :
    (us : List ℕ)
    → All IsUnit us
    → decode_utf16le (put_units (us ++ 0 ∷ [])) ≡ ok (string (utf16_decode us))
unfolding decode_utf16le
decode_utf16le_units us h =
    let even : length (put_units (us ++ 0 ∷ [])) % 2 ≡ 0 =
      omega (arith, length-put_units (us ++ 0 ∷ [])) in
    rw (
      even,
      get_units-put_units (us ++ 0 ∷ []) (All-append IsUnit us _ h (omega arith)),
      drop_nul-append,
    )

-- DecodeUTF16LE gives back every string of valid UTF-8 that EncodeUTF16LE was given, NULs
-- included.
pub decode_utf16le-encode_utf16le :
    (s : Bytes) → IsUtf8 s → decode_utf16le (encode_utf16le s) ≡ ok s
unfolding encode_utf16le
decode_utf16le-encode_utf16le s (rs, h, e) =
    decode_utf16le_units (utf16_encode (runes s)) (utf16_encode-IsUnit (runes s))
    ∙ rw (e, runes-string rs h, utf16_decode-utf16_encode rs h)

-- DecodeUTF16LE neither panics nor hangs.
pub decode_utf16le-Ensures : (b : Bytes) → Ensures (λ _. Unit {0}) (decode_utf16le b)
unfolding decode_utf16le
decode_utf16le-Ensures b = Ensures-guard (length b % 2 == 0) _ (λ _. returns tt)
