-- ===== src/Walk/Kept.antt =====
-- uefi.go: the variables that parseVariables collects, on any bytes.
use uefi.Base.{
  ℕ, ◌+◌, zero, suc, Bool, Bytes, List, [], ◌∷◌, ◌||◌, ok, length, All, All-append, IsByte, Option,
  some, none,
}
use uefi.Base.{
  Result, leb, ltb, Yields, yields, yields_err, yields_panic, yields_out_of_fuel, Yields-if,
  Yields-bind,
}
use uefi.Safeio.{Safeio}
use uefi.Variable.{Variable, IsStorable}
use uefi.Record.{add32}
use uefi.Record.Kept.{IsKept, parse_one_variable-IsKept}
use uefi.Walk.{keep, take_parsed, walk_step, walk, parse_variables}

-- The variables with which the next round begins can be written again.
abbrev Collects : Option (ℕ × List Variable) → Type 0
Collects none = Unit
Collects (some (next, vars)) = All IsStorable vars

keep-IsStorable :
    (max_vars next : ℕ) (vars : List Variable) (v : Option Variable)
    → All IsStorable vars
    → IsKept (v, next)
    → Yields (All IsStorable) (keep max_vars vars v)
unfolding keep
keep-IsStorable max_vars next vars none hs h = yields hs
keep-IsStorable max_vars next vars (some v) hs h =
    Yields-if (leb max_vars (length vars)) (λ _. yields_err)
      (λ _. yields (All-append IsStorable vars (v ∷ []) hs (h, tt)))

take_parsed-Collects :
    (stop max_vars off : ℕ) (vars : List Variable) (r : Result (Option Variable × ℕ))
    → All IsStorable vars
    → Yields IsKept r
    → Yields Collects (take_parsed stop max_vars off vars r)
unfolding take_parsed
take_parsed-Collects stop max_vars off vars _ hs (yields {a = (v, next)} h) =
    Yields-if (leb next off || ltb stop next) (λ _. yields tt)
      (λ _. Yields-bind (keep-IsStorable max_vars next vars v hs h) (λ kept ks. yields ks))
take_parsed-Collects stop max_vars off vars _ hs yields_err = yields tt
take_parsed-Collects stop max_vars off vars _ hs yields_panic = yields_panic
take_parsed-Collects stop max_vars off vars _ hs yields_out_of_fuel = yields_out_of_fuel

module _ (io : Safeio) (buf : Bytes) (bytes : All IsByte buf) (stop : ℕ) (auth : Bool)
    (max_vars : ℕ) where
  walk_step-Collects :
      (rounds off : ℕ) (vars : List Variable)
      → All IsStorable vars
      → Yields Collects (walk_step io buf stop auth max_vars rounds off vars)
  unfolding walk_step
  walk_step-Collects rounds off vars hs =
      Yields-if (leb (add32 off 2) stop)
        (λ _.
          Yields-if (io.guard_next (stop + 1) rounds)
            (λ _.
              take_parsed-Collects stop max_vars off vars _ hs
                (parse_one_variable-IsKept io buf off stop auth bytes))
            (λ _. yields tt))
        (λ _. yields tt)

  walk-IsStorable :
      (fuel rounds off : ℕ) (vars : List Variable)
      → All IsStorable vars
      → Yields (All IsStorable) (walk io buf stop auth max_vars fuel rounds off vars)
  unfolding walk
  walk-IsStorable zero rounds off vars hs = yields_out_of_fuel
  walk-IsStorable (suc fuel) rounds off vars hs =
      Yields-bind (walk_step-Collects rounds off vars hs) (go (walk-IsStorable fuel (suc rounds)))
    where
      go :
          ((next : ℕ) (kept : List Variable)
            → All IsStorable kept
            → Yields (All IsStorable) (walk io buf stop auth max_vars fuel (suc rounds) next kept))
          → (s : Option (ℕ × List Variable)) → Collects s
          → Yields (All IsStorable) (elim s [
            | none ↦ ok vars
            | some (next, kept) ↦ walk io buf stop auth max_vars fuel (suc rounds) next kept
          ])
      go rec none c = yields hs
      go rec (some (next, kept)) c = rec next kept c

-- On any bytes, the variables that parseVariables collects can be written again.
pub parse_variables-IsStorable :
    (io : Safeio) (buf : Bytes) (store_off store_size : ℕ) (auth : Bool) (max_vars : ℕ)
    → All IsByte buf
    → Yields (All IsStorable) (parse_variables io buf store_off store_size auth max_vars)
unfolding parse_variables
parse_variables-IsStorable io buf store_off store_size auth max_vars bytes =
    walk-IsStorable io buf bytes _ auth max_vars _ 0 _ [] tt
