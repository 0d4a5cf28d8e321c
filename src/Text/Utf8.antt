-- ===== src/Text/Utf8.antt =====
-- Go's conversions between strings and runes: `string(runes)` and `[]rune(s)`, with U+FFFD for
-- what is no scalar value and, byte by byte, for what is no UTF-8.
use uefi.Base.{ℕ, zero, suc, ◌+◌, ◌*◌, ◌/◌, ◌%◌, ◌<◌, ◌≤◌, ◌⊎◌, Bool, List, [], ◌∷◌, ◌++◌, ◌&&◌}
use uefi.Base.{Bytes, ltb, leb, ◌==◌, if◌then◌else◌}

-- A Unicode scalar value: a code point that is no surrogate.
abbrev pub IsScalar : ℕ → Type 0
IsScalar r = (r < 0xd800) ⊎ ((0xe000 ≤ r) × (r < 0x110000))

unfoldable pub encode_three : ℕ → Bytes
encode_three r = (224 + r / 4096) ∷ (128 + r / 64 % 64) ∷ (128 + r % 64) ∷ []

-- utf8.AppendRune
unfoldable pub encode_rune : ℕ → Bytes
unfolding encode_three
encode_rune r =
    if ltb r 0x80
    then r ∷ []
    else if ltb r 0x800
    then (192 + r / 64) ∷ (128 + r % 64) ∷ []
    else if leb 0xd800 r && ltb r 0xe000
    then encode_three 0xfffd
    else if ltb r 0x10000
    then encode_three r
    else if leb r 0x10ffff
    then (240 + r / 262144) ∷ (128 + r / 4096 % 64) ∷ (128 + r / 64 % 64) ∷ (128 + r % 64) ∷ []
    else encode_three 0xfffd

unfoldable pub string : List ℕ → Bytes
unfolding encode_rune
string [] = []
string (r ∷ rs) = encode_rune r ++ string rs

abbrev pub within : ℕ → ℕ → ℕ → Bool
within lo hi b = leb lo b && leb b hi

-- The least and the greatest second byte that may follow a first byte (utf8.acceptRanges).
abbrev pub second_lo : ℕ → ℕ
second_lo b = if b == 0xe0 then 0xa0 else if b == 0xf0 then 0x90 else 0x80

abbrev pub second_hi : ℕ → ℕ
second_hi b = if b == 0xed then 0x9f else if b == 0xf4 then 0x8f else 0xbf

abbrev pub is_second : ℕ → ℕ → Bool
is_second b c = within (second_lo b) (second_hi b) c

-- utf8.DecodeRune on a first byte and what follows it: the rune, and how many bytes more it takes.
unfoldable pub decode_rune : ℕ → Bytes → ℕ × ℕ
decode_rune b (c ∷ d ∷ e ∷ _) =
    if ltb b 0x80
    then (b, 0)
    else if within 0xc2 0xdf b && within 0x80 0xbf c
    then (b % 32 * 64 + c % 64, 1)
    else if within 0xe0 0xef b && is_second b c && within 0x80 0xbf d
    then (b % 16 * 4096 + c % 64 * 64 + d % 64, 2)
    else if within 0xf0 0xf4 b && is_second b c && (within 0x80 0xbf d && within 0x80 0xbf e)
    then (b % 8 * 262144 + c % 64 * 4096 + d % 64 * 64 + e % 64, 3)
    else (0xfffd, 0)
decode_rune b (c ∷ d ∷ []) =
    if ltb b 0x80
    then (b, 0)
    else if within 0xc2 0xdf b && within 0x80 0xbf c
    then (b % 32 * 64 + c % 64, 1)
    else if within 0xe0 0xef b && is_second b c && within 0x80 0xbf d
    then (b % 16 * 4096 + c % 64 * 64 + d % 64, 2)
    else (0xfffd, 0)
decode_rune b (c ∷ []) =
    if ltb b 0x80
    then (b, 0)
    else if within 0xc2 0xdf b && within 0x80 0xbf c
    then (b % 32 * 64 + c % 64, 1)
    else (0xfffd, 0)
decode_rune b [] = if ltb b 0x80 then (b, 0) else (0xfffd, 0)

-- `skip` counts the bytes that the last rune still takes.
unfoldable pub runes_from : ℕ → Bytes → List ℕ
unfolding decode_rune
runes_from skip [] = []
runes_from (suc skip) (b ∷ bs) = runes_from skip bs
runes_from zero (b ∷ bs) = let (r, more) = decode_rune b bs in r ∷ runes_from more bs

unfoldable pub runes : Bytes → List ℕ
unfolding runes_from
runes s = runes_from 0 s
