-- ===== src/Base/Slices.antt =====
-- Parts of buffers put together: slices, indices and words at a place, and what `copy` leaves.
use Prim.Native.Nat.{ℕ, zero, suc, ◌+◌, ◌-◌, ◌^◌, ◌≤◌, ◌<◌}
use mathlib.Core.Path.{◌≡◌, refl, sym, ap, ◌∙◌}
use mathlib.Core.List.{[], ◌∷◌, ◌++◌}
use native.Mathlib.Omega.{arith}
use uefi.Base.Lists.{
  length, replicate, take, drop, length-append, length-take, length-drop, take-append_le,
  drop-append_le, get_elem?-append_lt,
}
use uefi.Base.Outcomes.{Result, ok, ◌>>=◌, Ensures, returns, Ensures-bind}
use uefi.Base.Buffers.{
  Bytes, slice, index, copy_at, le32, uint64, uint16_at, uint32_at, uint64_at, uint32-le32,
  slice_ok, slice_from_ok, slice_from_at, slice_mid, uint16-Ensures, uint32-Ensures,
}

pub length-copy_at :
    (dst : Bytes) (off : ℕ) (src : Bytes) → length (copy_at dst off src) ≡ length dst
unfolding copy_at
length-copy_at [] off src = refl
length-copy_at (d ∷ ds) (suc off) src = ap suc (length-copy_at ds off src)
length-copy_at (d ∷ ds) zero [] = refl
length-copy_at (d ∷ ds) zero (s ∷ ss) = ap suc (length-copy_at ds zero ss)

-- A copy to the front that fits.
pub copy_at_front :
    (dst src : Bytes) → length src ≤ length dst → copy_at dst 0 src ≡ src ++ drop (length src) dst
unfolding copy_at
copy_at_front [] [] h = refl
copy_at_front [] (s ∷ ss) h = absurd (omega arith)
copy_at_front (d ∷ ds) [] h = refl
copy_at_front (d ∷ ds) (s ∷ ss) h = ap (λ t. s ∷ t) (copy_at_front ds ss (omega arith))

-- A copy leaves what stands before its offset.
pub copy_at-take :
    (dst : Bytes) (off : ℕ) (src : Bytes)
    → copy_at dst off src ≡ take off dst ++ copy_at (drop off dst) 0 src
unfolding copy_at
copy_at-take [] zero src = refl
copy_at-take [] (suc off) src = refl
copy_at-take (d ∷ ds) zero src = refl
copy_at-take (d ∷ ds) (suc off) src = ap (λ t. d ∷ t) (copy_at-take ds off src)

-- A word that stands at `k` in what follows `pre`.
pub uint32_at-le32 :
    (pre xs : Bytes) (k v : ℕ) (tail : Bytes) {a : ℕ}
    → a ≡ length pre + k
    → k ≤ length xs
    → drop k xs ≡ le32 v ++ tail
    → v < 2 ^ 32
    → uint32_at (pre ++ xs) a ≡ ok v
unfolding uint32_at
uint32_at-le32 pre xs k v tail p h e small =
    rw (slice_from_at pre xs k p, slice_from_ok xs k h, e) (uint32-le32 v tail small)

pub uint16_at-Ensures :
    (b : Bytes) (off : ℕ) → off + 2 ≤ length b → Ensures (λ _. Unit {0}) (uint16_at b off)
unfolding uint16_at
uint16_at-Ensures b off h =
    rw (slice_from_ok b off (omega arith))
      (uint16-Ensures (drop off b) (rw length-drop (omega arith)))

pub uint32_at-Ensures :
    (b : Bytes) (off : ℕ) → off + 4 ≤ length b → Ensures (λ _. Unit {0}) (uint32_at b off)
unfolding uint32_at
uint32_at-Ensures b off h =
    rw (slice_from_ok b off (omega arith))
      (uint32-Ensures (drop off b) (rw length-drop (omega arith)))

pub slice-Ensures :
    (b : Bytes) (lo hi : ℕ)
    → lo ≤ hi
    → hi ≤ length b
    → Ensures (λ s. length s ≡ hi - lo) (slice b lo hi)
slice-Ensures b lo hi h k =
    rw (slice_ok b lo hi h k) (returns (rw (length-take, length-drop) (omega arith)))

pub slice_mid_at :
    (pre mid post : Bytes) {a b : ℕ}
    → a ≡ length pre
    → b ≡ length pre + length mid
    → slice (pre ++ (mid ++ post)) a b ≡ ok mid
slice_mid_at pre mid post p q = rw (p, q) (slice_mid pre mid post)

-- Copying a slice into a new buffer of its length.
pub copy_at-replicate : (src : Bytes) → copy_at (replicate (length src) 0) 0 src ≡ src
unfolding copy_at
copy_at-replicate [] = refl
copy_at-replicate (s ∷ ss) = ap (λ t. s ∷ t) (copy_at-replicate ss)

uint64-Ensures : (b : Bytes) → 8 ≤ length b → Ensures (λ _. Unit {0}) (uint64 b)
unfolding uint64
uint64-Ensures [] h = absurd (omega arith)
uint64-Ensures (a ∷ []) h = absurd (omega arith)
uint64-Ensures (a ∷ b ∷ []) h = absurd (omega arith)
uint64-Ensures (a ∷ b ∷ c ∷ []) h = absurd (omega arith)
uint64-Ensures (a ∷ b ∷ c ∷ d ∷ []) h = absurd (omega arith)
uint64-Ensures (a ∷ b ∷ c ∷ d ∷ e ∷ []) h = absurd (omega arith)
uint64-Ensures (a ∷ b ∷ c ∷ d ∷ e ∷ f ∷ []) h = absurd (omega arith)
uint64-Ensures (a ∷ b ∷ c ∷ d ∷ e ∷ f ∷ g ∷ []) h = absurd (omega arith)
uint64-Ensures (a ∷ b ∷ c ∷ d ∷ e ∷ f ∷ g ∷ k ∷ r) h = returns tt

pub uint64_at-Ensures :
    (b : Bytes) (off : ℕ) → off + 8 ≤ length b → Ensures (λ _. Unit {0}) (uint64_at b off)
unfolding uint64_at
uint64_at-Ensures b off h =
    rw (slice_from_ok b off (omega arith))
      (uint64-Ensures (drop off b) (rw length-drop (omega arith)))

-- A slice in bounds, for the run that goes on with it.
pub Ensures-slice {ℓ κ} :
    {B : Type ℓ} {Q : B → Type κ} (b : Bytes) (lo hi : ℕ) (f : Bytes → Result B)
    → lo ≤ hi
    → hi ≤ length b
    → ((s : Bytes) → length s ≡ hi - lo → Ensures Q (f s))
    → Ensures Q (slice b lo hi >>= f)
Ensures-slice b lo hi f h k rest = Ensures-bind (slice-Ensures b lo hi h k) rest

pub Ensures-uint32_at {ℓ κ} :
    {B : Type ℓ} {Q : B → Type κ} (b : Bytes) (off : ℕ) (f : ℕ → Result B)
    → off + 4 ≤ length b
    → ((w : ℕ) → Ensures Q (f w))
    → Ensures Q (uint32_at b off >>= f)
Ensures-uint32_at b off f h rest = Ensures-bind (uint32_at-Ensures b off h) (λ w _. rest w)

-- Two buffers that begin alike are alike in every slice and at every index of that part.
pub slice-prefix :
    (h t t' : Bytes) (lo hi : ℕ)
    → lo ≤ hi
    → hi ≤ length h
    → slice (h ++ t) lo hi ≡ slice (h ++ t') lo hi
slice-prefix h t t' lo hi p q = front t ∙ sym (front t')
  where
    front : (x : Bytes) → slice (h ++ x) lo hi ≡ ok (take (hi - lo) (drop lo h))
    front x =
        slice_ok (h ++ x) lo hi p (rw length-append (omega arith))
        ∙ rw (drop-append_le lo h x (omega arith))
            (ap ok (take-append_le (hi - lo) (drop lo h) x (rw length-drop (omega arith))))

pub index-prefix : (h t t' : Bytes) (i : ℕ) → i < length h → index (h ++ t) i ≡ index (h ++ t') i
unfolding index
index-prefix h t t' i p = rw (get_elem?-append_lt h t i p, get_elem?-append_lt h t' i p)

pub copy_at-append : (h x src : Bytes) → copy_at (h ++ x) (length h) src ≡ h ++ copy_at x 0 src
unfolding copy_at
copy_at-append [] x src = refl
copy_at-append (b ∷ h) x src = ap (λ t. b ∷ t) (copy_at-append h x src)

-- A run of zero bytes in two parts.
pub replicate_add : (k n : ℕ) → replicate {A = ℕ} (k + n) 0 ≡ replicate k 0 ++ replicate n 0
replicate_add zero n = let e : 0 + n ≡ n = omega arith in rw e
replicate_add (suc k) n =
    let e : suc k + n ≡ suc (k + n) = omega arith in rw e (ap (λ t. 0 ∷ t) (replicate_add k n))
