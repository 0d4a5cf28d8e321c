-- ===== src/Base/Words.antt =====
-- Byte slices whose elements are bytes, their parts and their little-endian words.
use Prim.Native.Nat.{ℕ, ◌+◌, ◌-◌, ◌^◌, ◌<◌}
use mathlib.Core.Path.{◌≡◌, sym, ap, ◌∙◌}
use mathlib.Core.Bool.{◌&&◌}
use mathlib.Core.Option.{some}
use mathlib.Core.List.{[], ◌∷◌}
use native.Mathlib.Omega.{arith}
use uefi.Base.Tests.{leb}
use uefi.Base.Lists.{
  length, All, All-take, All-drop, take, drop, drop-add, get_elem?, get_elem?-drop,
}
use uefi.Base.Outcomes.{ok, Yields, yields, yields_panic, Yields-if, Yields-bind}
use uefi.Base.Buffers.{Bytes, IsByte, slice, slice_from, index, uint16, uint32, uint32_at}

pub slice-IsByte : (b : Bytes) (lo hi : ℕ) → All IsByte b → Yields (All IsByte) (slice b lo hi)
unfolding slice
slice-IsByte b lo hi h =
    Yields-if (leb lo hi && leb hi (length b))
      (λ _. yields (All-take IsByte (hi - lo) (drop lo b) (All-drop IsByte lo b h)))
      (λ _. yields_panic)

pub uint16-Yields : (b : Bytes) → All IsByte b → Yields (λ w. w < 2 ^ 16) (uint16 b)
unfolding uint16
uint16-Yields [] h = yields_panic
uint16-Yields (a ∷ []) h = yields_panic
uint16-Yields (a ∷ b ∷ r) h = yields (omega arith)

pub uint32-Yields : (b : Bytes) → All IsByte b → Yields (λ w. w < 2 ^ 32) (uint32 b)
unfolding uint32
uint32-Yields [] h = yields_panic
uint32-Yields (a ∷ []) h = yields_panic
uint32-Yields (a ∷ b ∷ []) h = yields_panic
uint32-Yields (a ∷ b ∷ c ∷ []) h = yields_panic
uint32-Yields (a ∷ b ∷ c ∷ d ∷ r) h = yields (omega arith)

pub uint32_at-Yields :
    (b : Bytes) (off : ℕ) → All IsByte b → Yields (λ w. w < 2 ^ 32) (uint32_at b off)
unfolding uint32_at slice_from
uint32_at-Yields b off h =
    Yields-bind {Q = All IsByte}
      (Yields-if (leb off (length b)) (λ _. yields (All-drop IsByte off b h)) (λ _. yields_panic))
      uint32-Yields

-- The bytes of a slice that was taken.
pub slice→take :
    (b : Bytes) (lo hi : ℕ) {raw : Bytes}
    → slice b lo hi ≡ ok raw
    → raw ≡ take (hi - lo) (drop lo b)
unfolding slice
slice→take b lo hi e = ground arith

two_front :
    (d : Bytes) (x y : ℕ) → get_elem? d 0 ≡ some x → get_elem? d 1 ≡ some y → d ≡ x ∷ y ∷ drop 2 d
two_front [] x y e f = cc
two_front (a ∷ []) x y e f = cc
two_front (a ∷ b ∷ d) x y e f = cc

pub index→get_elem? : (b : Bytes) (i x : ℕ) → index b i ≡ ok x → get_elem? b i ≡ some x
unfolding index
index→get_elem? b i x e = ground arith

-- Two bytes that were read stand where they were read.
pub drop_two :
    (b : Bytes) (i x y : ℕ)
    → index b i ≡ ok x
    → index b (i + 1) ≡ ok y
    → drop i b ≡ x ∷ y ∷ drop (i + 2) b
drop_two b i x y e f =
    let first : get_elem? (drop i b) 0 ≡ some x =
      get_elem?-drop i 0 b ∙ ap (get_elem? b) (omega arith) ∙ index→get_elem? b i x e in
    let second : get_elem? (drop i b) 1 ≡ some y =
      get_elem?-drop i 1 b ∙ index→get_elem? b (i + 1) y f in
    two_front (drop i b) x y first second ∙ ap (λ t. x ∷ y ∷ t) (sym (drop-add i 2 b))
