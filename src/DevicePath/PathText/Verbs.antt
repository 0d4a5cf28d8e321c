-- ===== src/DevicePath/PathText/Verbs.antt =====
-- devicepath.go, hexBytes, and the verbs of fmt.Sprintf that the text form of device paths uses.
use uefi.Base.{ℕ, zero, suc, ◌+◌, ◌/◌, ◌%◌, [], ◌∷◌, ◌++◌, Bytes}
use uefi.Base.{ltb, leb, if◌then◌else◌}

-- A digit below 16, in lower case: `hexdigits[d]`.
unfoldable pub lower_digit : ℕ → ℕ
lower_digit d = if leb d 9 then 48 + d else 87 + d

-- hexBytes
unfoldable pub hex_bytes : Bytes → Bytes
hex_bytes [] = []
hex_bytes (c ∷ b) = lower_digit (c / 16) ∷ lower_digit (c % 16) ∷ hex_bytes b

-- The digits of `n` in a base of 10 or 16, without leading zeros, in front of `done`. A uint64 has
-- at most twenty digits.
unfoldable pub digits : ℕ → ℕ → ℕ → Bytes → Bytes
digits base zero n done = done
digits base (suc k) n done =
    let more = digits base k (n / base) (lower_digit (n % base) ∷ done) in
    if ltb n base then lower_digit n ∷ done else more

-- `%x` and `%d`
abbrev pub hex : ℕ → Bytes
hex n = digits 16 20 n []

abbrev pub decimal : ℕ → Bytes
decimal n = digits 10 20 n []

-- `%02x`, `%04x` and `%08x`, of numbers that have no more digits.
abbrev pub hex2 : ℕ → Bytes
hex2 n = lower_digit (n / 16 % 16) ∷ lower_digit (n % 16) ∷ []

abbrev pub hex4 : ℕ → Bytes
hex4 n = hex2 (n / 256) ++ hex2 (n % 256)

abbrev pub hex8 : ℕ → Bytes
hex8 n = hex4 (n / 65536) ++ hex4 (n % 65536)
