-- ===== src/Walk/Total.antt =====
-- uefi.go: parseVariables on any file.
use uefi.Base.{
  ℕ, zero, suc, ◌+◌, ◌-◌, ◌<◌, ◌≤◌, ◌≡◌, Bool, Bytes, List, [], ◌∷◌, ◌++◌, ◌||◌, ok, length,
  length-append, arith, Option, some, none,
}
use uefi.Base.{Result, leb, ltb, leb→le, Ensures, returns, fails, Ensures-bind, Ensures-if}
use uefi.Safeio.{Safeio, SafeioLaws}
use uefi.Variable.{u32_mod, Variable, store_header_size}
use uefi.Record.{add32}
use uefi.Record.Bounds.{Advances, footprint, parse_one_variable-Ensures}
use uefi.Walk.{keep, take_parsed, walk_step, walk, region_end, parse_variables}

-- What the variables take of the store at least: a header and the data of each.
abbrev pub weight : List Variable → ℕ
weight [] = 0
weight (v ∷ vs) = 32 + length v.content + weight vs

weight-append : (xs ys : List Variable) → weight (xs ++ ys) ≡ weight xs + weight ys
weight-append [] ys = omega arith
weight-append (x ∷ xs) ys = omega (arith, weight-append xs ys)

-- The bounds on the variables that a walk collects.
pub record IsBounded (max_vars size : ℕ) (vars : List Variable) : Type 0 where
  pub count : length vars ≤ max_vars
  pub total : weight vars ≤ size

-- The variables and the offset with which the next round begins.
abbrev Continues : ℕ → ℕ → ℕ → Option (ℕ × List Variable) → Type 0
Continues max_vars stop off none = Unit
Continues max_vars stop off (some (next, vars)) =
    (off < next) × (next ≤ stop) × IsBounded max_vars next vars

keep-Ensures :
    (max_vars off next : ℕ) (vars : List Variable) (v : Option Variable)
    → IsBounded max_vars off vars
    → off + footprint v ≤ next
    → Ensures (IsBounded max_vars next) (keep max_vars vars v)
unfolding keep
keep-Ensures max_vars off next vars none b h = returns (omega arith)
keep-Ensures max_vars off next vars (some v) b h =
    Ensures-if (leb max_vars (length vars)) (λ _. fails)
      λ free. returns (ground (arith, length-append vars (v ∷ []), weight-append vars (v ∷ [])))

take_parsed-Ensures :
    (stop max_vars off : ℕ) (vars : List Variable) (r : Result (Option Variable × ℕ))
    → IsBounded max_vars off vars
    → Ensures (Advances off stop) r
    → Ensures (Continues max_vars stop off) (take_parsed stop max_vars off vars r)
unfolding take_parsed
take_parsed-Ensures stop max_vars off vars _ b (returns {a = (v, next)} adv) =
    Ensures-if (leb next off || ltb stop next) (λ _. returns tt)
      λ _.
        Ensures-bind (keep-Ensures max_vars off next vars v b adv.forward)
          λ kept k. returns (footprint_pos v adv.forward, adv.within, k)
  where
    footprint_pos : (v : Option Variable) → off + footprint v ≤ next → off < next
    footprint_pos none h = omega arith
    footprint_pos (some v) h = omega arith
take_parsed-Ensures stop max_vars off vars _ b fails = returns tt

module _ (io : Safeio) (laws : SafeioLaws io) (buf : Bytes) (stop : ℕ) (auth : Bool) (max_vars : ℕ)
    (len : stop ≤ length buf) (small : length buf + 60 < u32_mod) where
  walk_step-Ensures :
      (rounds off : ℕ) (vars : List Variable)
      → IsBounded max_vars off vars
      → off + 2 < u32_mod
      → Ensures (Continues max_vars stop off) (walk_step io buf stop auth max_vars rounds off vars)
  unfolding walk_step
  walk_step-Ensures rounds off vars b room =
      Ensures-if (leb (add32 off 2) stop)
        (λ more.
          Ensures-if (io.guard_next (stop + 1) rounds)
            (λ _. take_parsed-Ensures stop max_vars off vars _ b (
              parse_one_variable-Ensures io laws buf off stop auth (omega (arith, leb→le _ _ more))
                len (omega arith)))
            (λ _. returns tt))
        (λ _. returns tt)

  walk-Ensures :
      (fuel rounds off : ℕ) (vars : List Variable)
      → IsBounded max_vars off vars
      → off ≤ length buf
      → stop - off < fuel
      → Ensures
          (IsBounded max_vars (length buf))
          (walk io buf stop auth max_vars fuel rounds off vars)
  unfolding walk
  walk-Ensures zero rounds off vars w o h = absurd (omega arith)
  walk-Ensures (suc fuel) rounds off vars w o h =
      Ensures-bind (walk_step-Ensures rounds off vars w (omega arith))
        (go (walk-Ensures fuel (suc rounds)))
    where
      go :
          ((next : ℕ) (kept : List Variable)
            → IsBounded max_vars next kept
            → next ≤ length buf
            → stop - next < fuel
            → Ensures
                (IsBounded max_vars (length buf))
                (walk io buf stop auth max_vars fuel (suc rounds) next kept))
          → (s : Option (ℕ × List Variable)) → Continues max_vars stop off s
          → Ensures (IsBounded max_vars (length buf)) (elim s [
            | none ↦ ok vars
            | some (next, kept) ↦ walk io buf stop auth max_vars fuel (suc rounds) next kept
          ])
      go rec none c = returns (omega arith)
      go rec (some (next, kept)) c = rec next kept c.2 (omega arith) (omega arith)

-- The region's end lies within the file.
region_end-le :
    (len store_off store_size : ℕ) → len + 60 < u32_mod → region_end len store_off store_size ≤ len
unfolding region_end
region_end-le len store_off store_size h = ground arith

-- On any bytes that hold a store header and leave 60 below 2^32, parseVariables ends without a
-- panic and within its fuel, in an error or in at most the limit of variables whose headers and
-- data fit in the file.
pub parse_variables-Ensures :
    (io : Safeio)
    → SafeioLaws io
    → (buf : Bytes) (store_off store_size : ℕ) (auth : Bool) (max_vars : ℕ)
    → length buf + 60 < u32_mod
    → store_off + store_header_size ≤ length buf
    → Ensures
        (IsBounded max_vars (length buf))
        (parse_variables io buf store_off store_size auth max_vars)
unfolding parse_variables
parse_variables-Ensures io laws buf store_off store_size auth max_vars small header =
    let inside = region_end-le (length buf) store_off store_size small in
    walk-Ensures io laws buf _ auth max_vars inside small _ 0 _ [] (omega arith) (omega arith)
      (omega arith)
