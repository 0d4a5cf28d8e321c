-- ===== src/Walk.antt =====
-- uefi.go, parseVariables and serializeVars: the variable region of a store as a list of variables.
pub mod Total
pub mod RoundTrip
pub mod Limit
pub mod Kept
pub mod Torn
use uefi.Base.{ℕ, zero, suc, ◌+◌, ◌%◌, Bool, Option, none, some, List, [], ◌∷◌, ◌++◌, ◌||◌, Bytes}
use uefi.Base.{
  Result, ok, err, panic, out_of_fuel, too_large, ◌>>=◌, ltb, leb, length, if◌then◌else◌,
}
use uefi.Safeio.{Safeio}
use uefi.Variable.{u32_mod, Variable, store_header_size}
use uefi.Record.{add32, parse_one_variable, encode_variable}

-- `if len(vars) >= maxVars { return error }; vars = append(vars, *v)`, for a variable that is kept.
unfoldable pub keep : ℕ → List Variable → Option Variable → Result (List Variable)
keep max_vars vars none = ok vars
keep max_vars vars (some v) =
    if leb max_vars (length vars) then err too_large else ok (vars ++ v ∷ [])

-- What the body does with what parseOneVariable returned: `none` is a `break`, and `some` the next
-- offset with the variables so far.
unfoldable pub take_parsed :
    ℕ → ℕ → ℕ → List Variable → Result (Option Variable × ℕ) → Result (Option (ℕ × List Variable))
unfolding keep
take_parsed stop max_vars off vars (ok (v, next)) =
    if leb next off || ltb stop next
    then ok none
    else keep max_vars vars v >>= λ kept. ok (some (next, kept))
take_parsed stop max_vars off vars (err e) = ok none
take_parsed stop max_vars off vars panic = panic
take_parsed stop max_vars off vars out_of_fuel = out_of_fuel

module _ (io : Safeio) (buf : Bytes) (stop : ℕ) (auth : Bool) (max_vars : ℕ) where
  -- One round: the loop's condition, the guard, the record.
  unfoldable pub walk_step : ℕ → ℕ → List Variable → Result (Option (ℕ × List Variable))
  unfolding take_parsed
  walk_step rounds off vars =
      if leb (add32 off 2) stop
      then (if io.guard_next (stop + 1) rounds
          then take_parsed stop max_vars off vars (parse_one_variable io buf off stop auth)
          else ok none)
      else ok none

  -- The loop. Every round goes forward, so `stop + 1` rounds of fuel are enough.
  unfoldable pub walk : ℕ → ℕ → ℕ → List Variable → Result (List Variable)
  walk zero rounds off vars = out_of_fuel
  walk (suc fuel) rounds off vars = walk_step rounds off vars >>= λ s. elim s [
    | none ↦ ok vars
    | some (next, kept) ↦ walk fuel (suc rounds) next kept
  ]

-- `uint32(end64)`
unfoldable pub region_end : ℕ → ℕ → ℕ → ℕ
region_end len store_off store_size =
    (if ltb len (store_off + store_size) then len else store_off + store_size) % u32_mod

unfoldable pub parse_variables : Safeio → Bytes → ℕ → ℕ → Bool → ℕ → Result (List Variable)
unfolding walk region_end
parse_variables io buf store_off store_size auth max_vars =
    let stop = region_end (length buf) store_off store_size in
    walk io buf stop auth max_vars (stop + 1) 0 (add32 store_off store_header_size) []

unfoldable pub serialize_vars : Bool → List Variable → Bytes
serialize_vars auth [] = []
serialize_vars auth (v ∷ vs) = encode_variable auth v ++ serialize_vars auth vs
