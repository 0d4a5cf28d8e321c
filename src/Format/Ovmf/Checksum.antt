-- ===== src/Format/Ovmf/Checksum.antt =====
-- format.go: the checksum in the header of the firmware volume.
use uefi.Base.{ℕ, ◌+◌, ◌-◌, ◌%◌, ◌<◌, ◌≡◌, List, [], ◌∷◌, ◌++◌, arith}
use uefi.Format.Ovmf.{sum_words}

total : List ℕ → ℕ
total [] = 0
total (w ∷ ws) = w + total ws

total-insert : (xs ys : List ℕ) (w : ℕ) → total (xs ++ w ∷ ys) ≡ w + total (xs ++ 0 ∷ ys)
unfolding total
total-insert [] ys w = omega arith
total-insert (x ∷ xs) ys w = omega (arith, total-insert xs ys w)

sum_words-total :
    (ws : List ℕ) (sum : ℕ) → sum < 65536 → sum_words ws sum ≡ (sum + total ws) % 65536
unfolding sum_words total
sum_words-total [] sum h = omega arith
sum_words-total (w ∷ ws) sum h = omega (arith, sum_words-total ws ((sum + w) % 65536) (omega arith))

-- A word that was zero, replaced by the negated sum, makes the sum zero.
pub sum_words-checksum :
    (xs ys : List ℕ) → sum_words (xs ++ ((65536 - sum_words (xs ++ 0 ∷ ys) 0) % 65536) ∷ ys) 0 ≡ 0
sum_words-checksum xs ys =
    let c = (65536 - sum_words (xs ++ 0 ∷ ys) 0) % 65536 in
    omega (
      arith,
      sum_words-total (xs ++ 0 ∷ ys) 0 (omega arith),
      sum_words-total (xs ++ c ∷ ys) 0 (omega arith),
      total-insert xs ys c,
    )
