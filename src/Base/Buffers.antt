-- ===== src/Base/Buffers.antt =====
-- Byte slices as lists of numbers: Go's slicing and indexing with their panics, `copy`, and
-- encoding/binary's little-endian words.
use Prim.Native.Nat.{ℕ, zero, suc, ◌+◌, ◌-◌, ◌*◌, ◌/◌, ◌%◌, ◌^◌, ◌≤◌, ◌<◌}
use mathlib.Core.Path.{◌≡◌, refl, ap, ◌∙◌}
use mathlib.Core.Bool.{Bool, true, false, ◌&&◌}
use mathlib.Core.Option.{Option, none, some}
use mathlib.Core.List.{List, [], ◌∷◌, ◌++◌}
use native.Mathlib.Omega.{arith}
use Prim.Native.Nat.add
use uefi.Base.Tests.{leb, le→leb, ◌==◌, ==_refl, if◌then◌else◌}
use uefi.Base.Lists.{
  length, get_elem?, take, drop, drop-append, take-append, drop-add, length-append,
}
use uefi.Base.Outcomes.{Result, ok, panic, ◌>>=◌, Ensures, returns}

abbrev pub Bytes : Type 0
Bytes = List ℕ

abbrev pub IsByte : ℕ → Type 0
IsByte b = b < 256

-- `b[lo:hi]`
unfoldable pub slice : Bytes → ℕ → ℕ → Result Bytes
slice b lo hi = if leb lo hi && leb hi (length b) then ok (take (hi - lo) (drop lo b)) else panic

-- `b[lo:]`
unfoldable pub slice_from : Bytes → ℕ → Result Bytes
slice_from b lo = if leb lo (length b) then ok (drop lo b) else panic

abbrev get_or_panic : Option ℕ → Result ℕ
get_or_panic (some x) = ok x
get_or_panic none = panic

-- `b[i]`
unfoldable pub index : Bytes → ℕ → Result ℕ
index b i = get_or_panic (get_elem? b i)

-- `copy(dst[off:], src)`: what does not fit is dropped.
unfoldable pub copy_at : Bytes → ℕ → Bytes → Bytes
copy_at [] off src = []
copy_at (d ∷ ds) (suc off) src = d ∷ copy_at ds off src
copy_at (d ∷ ds) zero [] = d ∷ ds
copy_at (d ∷ ds) zero (s ∷ ss) = s ∷ copy_at ds zero ss

-- `==` of strings and arrays.
unfoldable pub eq_bytes : Bytes → Bytes → Bool
eq_bytes [] [] = true
eq_bytes (x ∷ xs) (y ∷ ys) = x == y && eq_bytes xs ys
eq_bytes _ _ = false

-- The bytes of PutUint16, PutUint32 and PutUint64.
abbrev pub le16 : ℕ → Bytes
le16 v = v % 256 ∷ v / 256 % 256 ∷ []

abbrev pub le32 : ℕ → Bytes
le32 v = v % 256 ∷ v / 256 % 256 ∷ v / 65536 % 256 ∷ v / 16777216 % 256 ∷ []

abbrev pub le64 : ℕ → Bytes
le64 v = le32 (v % 2 ^ 32) ++ le32 (v / 2 ^ 32)

-- Uint16, Uint32 and Uint64: they panic on a short slice and ignore what follows.
unfoldable pub uint16 : Bytes → Result ℕ
uint16 (a ∷ b ∷ _) = ok (a + 256 * b)
uint16 _ = panic

unfoldable pub uint32 : Bytes → Result ℕ
uint32 (a ∷ b ∷ c ∷ d ∷ _) = ok (a + 256 * b + 65536 * c + 16777216 * d)
uint32 _ = panic

unfoldable pub uint64 : Bytes → Result ℕ
uint64 (a ∷ b ∷ c ∷ d ∷ e ∷ f ∷ g ∷ h ∷ _) =
    ok (
      a
      + 256 * b
      + 65536 * c
      + 16777216 * d
      + 4294967296 * (e + 256 * f + 65536 * g + 16777216 * h))
uint64 _ = panic

-- `Uint16(b[off:])` and so on.
unfoldable pub uint16_at : Bytes → ℕ → Result ℕ
uint16_at b off = slice_from b off >>= uint16

unfoldable pub uint32_at : Bytes → ℕ → Result ℕ
uint32_at b off = slice_from b off >>= uint32

unfoldable pub uint64_at : Bytes → ℕ → Result ℕ
uint64_at b off = slice_from b off >>= uint64

pub le16_value : (v : ℕ) → v < 2 ^ 16 → v % 256 + 256 * (v / 256 % 256) ≡ v
le16_value v h = omega arith

pub le32_value :
    (v : ℕ)
    → v < 2 ^ 32
    → v % 256 + 256 * (v / 256 % 256) + 65536 * (v / 65536 % 256) + 16777216 * (v / 16777216 % 256)
      ≡ v
le32_value v h = omega arith

pub uint16-le16 : (v : ℕ) (rest : Bytes) → v < 2 ^ 16 → uint16 (le16 v ++ rest) ≡ ok v
unfolding uint16
uint16-le16 v rest h = ap ok (le16_value v h)

pub uint32-le32 : (v : ℕ) (rest : Bytes) → v < 2 ^ 32 → uint32 (le32 v ++ rest) ≡ ok v
unfolding uint32
uint32-le32 v rest h = ap ok (le32_value v h)

pub uint64-le64 : (v : ℕ) (rest : Bytes) → v < 2 ^ 64 → uint64 (le64 v ++ rest) ≡ ok v
unfolding uint64
uint64-le64 v rest h = ap ok (omega arith)

pub slice_ok :
    (b : Bytes) (lo hi : ℕ)
    → lo ≤ hi
    → hi ≤ length b
    → slice b lo hi ≡ ok (take (hi - lo) (drop lo b))
unfolding slice
slice_ok b lo hi h k = rw (le→leb lo hi h, le→leb hi (length b) k)

pub slice_from_ok : (b : Bytes) (lo : ℕ) → lo ≤ length b → slice_from b lo ≡ ok (drop lo b)
unfolding slice_from
slice_from_ok b lo h = rw (le→leb lo (length b) h)

pub index-Ensures : (b : Bytes) (i : ℕ) → i < length b → Ensures (λ _. Unit {0}) (index b i)
unfolding index
index-Ensures [] i h = absurd (omega arith)
index-Ensures (x ∷ xs) zero h = returns tt
index-Ensures (x ∷ xs) (suc i) h = index-Ensures xs i (omega arith)

pub index-append : (pre b : Bytes) (i : ℕ) → index (pre ++ b) (length pre + i) ≡ index b i
unfolding index
index-append [] b i = ap (index b) (omega arith)
index-append (x ∷ xs) b i = rw add.suc (index-append xs b i)

pub drop-append_add : (pre xs : Bytes) (n : ℕ) → drop (length pre + n) (pre ++ xs) ≡ drop n xs
drop-append_add pre xs n = rw (drop-add, drop-append pre xs)

pub slice_from-append :
    (pre xs : Bytes) (lo : ℕ) → slice_from (pre ++ xs) (length pre + lo) ≡ slice_from xs lo
unfolding slice_from
slice_from-append pre xs lo = ground (arith, drop-append_add pre xs lo, length-append pre xs)

pub slice-append :
    (pre xs : Bytes) (lo hi : ℕ)
    → slice (pre ++ xs) (length pre + lo) (length pre + hi) ≡ slice xs lo hi
unfolding slice
slice-append pre xs lo hi =
    let width : length pre + hi - (length pre + lo) ≡ hi - lo = omega arith in
    rw width ground (arith, drop-append_add pre xs lo, length-append pre xs)

-- The same at positions that are known only by an equation.
pub slice_at :
    (pre xs : Bytes) (lo hi : ℕ) {a b : ℕ}
    → a ≡ length pre + lo
    → b ≡ length pre + hi
    → slice (pre ++ xs) a b ≡ slice xs lo hi
slice_at pre xs lo hi p q = rw (p, q) (slice-append pre xs lo hi)

pub slice_from_at :
    (pre xs : Bytes) (lo : ℕ) {a : ℕ}
    → a ≡ length pre + lo
    → slice_from (pre ++ xs) a ≡ slice_from xs lo
slice_from_at pre xs lo p = rw p (slice_from-append pre xs lo)

pub index_at :
    (pre xs : Bytes) (i : ℕ) {a : ℕ} → a ≡ length pre + i → index (pre ++ xs) a ≡ index xs i
index_at pre xs i p = rw p (index-append pre xs i)

-- The slice of a part of the buffer.
pub slice_mid :
    (pre mid post : Bytes)
    → slice (pre ++ (mid ++ post)) (length pre) (length pre + length mid) ≡ ok mid
slice_mid pre mid post =
    slice_ok (pre ++ (mid ++ post)) (length pre) (length pre + length mid) (omega arith)
      (rw (length-append, length-append) (omega arith))
    ∙ rw drop-append (ap ok (ap (λ n. take n (mid ++ post)) width ∙ take-append mid post))
  where
    width : length pre + length mid - length pre ≡ length mid
    width = omega arith

pub uint16-Ensures : (b : Bytes) → 2 ≤ length b → Ensures (λ _. Unit {0}) (uint16 b)
unfolding uint16
uint16-Ensures [] h = absurd (omega arith)
uint16-Ensures (a ∷ []) h = absurd (omega arith)
uint16-Ensures (a ∷ b ∷ r) h = returns tt

pub uint32-Ensures : (b : Bytes) → 4 ≤ length b → Ensures (λ _. Unit {0}) (uint32 b)
unfolding uint32
uint32-Ensures [] h = absurd (omega arith)
uint32-Ensures (a ∷ []) h = absurd (omega arith)
uint32-Ensures (a ∷ b ∷ []) h = absurd (omega arith)
uint32-Ensures (a ∷ b ∷ c ∷ []) h = absurd (omega arith)
uint32-Ensures (a ∷ b ∷ c ∷ d ∷ r) h = returns tt

pub eq_bytes_refl : (xs : Bytes) → eq_bytes xs xs ≡ true
unfolding eq_bytes
eq_bytes_refl [] = refl
eq_bytes_refl (x ∷ xs) = rw (==_refl x, eq_bytes_refl xs)

pub eq_bytes→eq : (xs ys : Bytes) → eq_bytes xs ys ≡ true → xs ≡ ys
unfolding eq_bytes
eq_bytes→eq [] [] h = refl
eq_bytes→eq [] (y ∷ ys) h = cc
eq_bytes→eq (x ∷ xs) [] h = cc
eq_bytes→eq (x ∷ xs) (y ∷ ys) h = ground (arith, eq_bytes→eq xs ys)
