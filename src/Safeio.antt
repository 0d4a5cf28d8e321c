-- ===== src/Safeio.antt =====
-- github.com/go-volumes/safeio, which the source only calls: what it calls, and what it relies on.
use uefi.Base.{
  ℕ, ◌+◌, ◌≤◌, ◌<◌, ◌≡◌, ◌↔◌, Bool, true, Option, some, none, Bytes, ltb, leb, replicate, arith,
  if◌then◌else◌,
}

pub record Safeio : Type 0 where
  -- `CheckBounds(off, n, size) == nil`
  pub check_bounds : ℕ → ℕ → ℕ → Bool
  -- `MakeBytes(n, max)`
  pub make_bytes : ℕ → ℕ → Option Bytes
  -- Whether a guard of `NewLoopGuard(limit)` lets a round pass after so many rounds.
  pub guard_next : ℕ → ℕ → Bool

-- The documented behaviour: a range that runs past the size is refused and any other is not; an
-- allocation within the ceiling gives zeroed bytes; a guard lets `limit` rounds pass.
pub record SafeioLaws (io : Safeio) : Type 0 where
  pub check_bounds_iff : (off n size : ℕ) → (io.check_bounds off n size ≡ true) ↔ (off + n ≤ size)
  pub make_bytes_within : (n max : ℕ) → n ≤ max → io.make_bytes n max ≡ some (replicate n 0)
  pub guard_next_within : (limit rounds : ℕ) → rounds < limit → io.guard_next limit rounds ≡ true

-- An instance, for runs.
abbrev pub plain_safeio : Safeio
plain_safeio = record {
  check_bounds = λ off n size. leb (off + n) size;
  make_bytes = λ n max. if leb n max then some (replicate n 0) else none;
  guard_next = λ limit rounds. ltb rounds limit;
}

check_bounds_plain : (off n size : ℕ) → (leb (off + n) size ≡ true) ↔ (off + n ≤ size)
check_bounds_plain off n size = ground arith

make_bytes_plain :
    (n max : ℕ)
    → n ≤ max
    → (if leb n max then some (replicate n 0) else none) ≡ some (replicate {A = ℕ} n 0)
make_bytes_plain n max h = ground arith

guard_next_plain : (limit rounds : ℕ) → rounds < limit → ltb rounds limit ≡ true
guard_next_plain limit rounds h = ground arith

pub plain_safeio-laws : SafeioLaws plain_safeio
plain_safeio-laws = record {
  check_bounds_iff = check_bounds_plain;
  make_bytes_within = make_bytes_plain;
  guard_next_within = guard_next_plain;
}
