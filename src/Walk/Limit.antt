-- ===== src/Walk/Limit.antt =====
-- uefi.go: parseVariables on more variables than its limit.
use uefi.Base.{
  ℕ, zero, suc, ◌+◌, ◌%◌, ◌<◌, ◌≤◌, ◌≡◌, ap, ◌∙◌, Bool, Bytes, List, [], ◌∷◌, ◌++◌, append_assoc,
  err, length, length-append, arith,
}
use uefi.Base.{le→leb, lt→leb, le→ltb, All, too_large}
use native.Mathlib.Decide.{dec_le}
use uefi.Safeio.{Safeio, SafeioLaws}
use uefi.Variable.{u32_mod, Variable, IsStorable, store_header_size}
use uefi.Record.{add32, encode_variable}
use uefi.Record.RoundTrip.{parse_one_variable-encode_variable, encode_variable_aligned}
use uefi.Walk.{walk_step, walk, parse_variables, serialize_vars, region_end}
use uefi.Walk.RoundTrip.{walk_step-encode_variable, walk_next}

module _ (io : Safeio) (laws : SafeioLaws io) (auth : Bool) (stop max_vars : ℕ) where
  -- A record where the limit is reached is an error.
  walk_step-over :
      (pre post : Bytes) (v : Variable) (rounds : ℕ) (vars : List Variable)
      → IsStorable v
      → length pre % 4 ≡ 0
      → length pre + length (encode_variable auth v) ≤ stop
      → stop < u32_mod
      → rounds ≤ stop
      → max_vars ≤ length vars
      → walk_step io
          (pre ++ (encode_variable auth v ++ post))
          stop
          auth
          max_vars
          rounds
          (length pre)
          vars
        ≡ err too_large
  unfolding walk_step
  walk_step-over pre post v rounds vars storable aligned fits small guarded over =
      let next = length pre + length (encode_variable auth v) in
      let size = (encode_variable_aligned auth v (omega arith)).0 in
      rw (
        le→leb (add32 (length pre) 2) stop (omega arith),
        laws.guard_next_within (stop + 1) rounds (omega arith),
        parse_one_variable-encode_variable auth v io laws pre post stop storable aligned fits small,
        lt→leb next (length pre) (omega arith),
        le→ltb stop next fits,
        le→leb max_vars (length vars) over,
      )

  walk_over :
      (buf : Bytes) (fuel rounds off : ℕ) (vars : List Variable)
      → walk_step io buf stop auth max_vars rounds off vars ≡ err too_large
      → walk io buf stop auth max_vars (suc fuel) rounds off vars ≡ err too_large
  unfolding walk
  walk_over buf fuel rounds off vars e = rw e

  walk-too_many :
      (vs : List Variable) (pre post : Bytes) (fuel rounds : ℕ) (vars : List Variable)
      → All IsStorable vs
      → length pre % 4 ≡ 0
      → length pre + length (serialize_vars auth vs) ≤ stop
      → stop + 60 < u32_mod
      → length vars ≤ max_vars
      → max_vars < length vars + length vs
      → rounds ≤ length pre
      → stop < length pre + fuel
      → walk io
          (pre ++ (serialize_vars auth vs ++ post))
          stop
          auth
          max_vars
          fuel
          rounds
          (length pre)
          vars
        ≡ err too_large
  unfolding serialize_vars
  walk-too_many vs pre post zero rounds vars storable aligned fits small below count guarded
        fuelled =
      absurd (omega arith)
  walk-too_many [] pre post (suc fuel) rounds vars storable aligned fits small below count guarded
        fuelled =
      absurd (omega arith)
  walk-too_many (v ∷ vs) pre post (suc fuel) rounds vars (h, hs) aligned fits small below count
        guarded fuelled =
      let e = encode_variable auth v in
      let ser = serialize_vars auth vs in
      let both = length-append e ser in
      let sized = encode_variable_aligned auth v (omega (arith, both)) in
      let front = length-append pre e in
      let more = length-append vars (v ∷ []) in
      ap (λ b. walk io b stop auth max_vars (suc fuel) rounds (length pre) vars)
        (ap (λ b. pre ++ b) (append_assoc e ser post))
      ∙ elim (dec_le max_vars (length vars)) [
        | yes full ↦ walk_over (pre ++ (e ++ (ser ++ post))) fuel rounds (length pre) vars (
            walk_step-over pre (ser ++ post) v rounds vars h aligned (omega (arith, both))
              (omega arith) (omega (arith, both, sized)) full)
        | no free ↦
            let ih =
              walk-too_many vs (pre ++ e) post fuel (suc rounds) (vars ++ v ∷ []) hs
                (omega (arith, front, sized)) (omega (arith, both, front)) small
                (omega (arith, more)) (omega (arith, more)) (omega (arith, front, sized))
                (omega (arith, front, sized)) in
            walk_next io laws auth stop max_vars (pre ++ (e ++ (ser ++ post))) fuel rounds
              (length pre) vars
              (walk_step-encode_variable io laws auth stop max_vars pre (ser ++ post) v rounds vars
                h aligned (omega (arith, both)) (omega arith) (omega (arith, both, sized))
                (omega arith))
            ∙ (rw (append_assoc pre e, front) at ih)
      ]

-- Where serializeVars wrote more variables than the limit behind an aligned prefix, parseVariables
-- gives the error of a store that is too large.
pub parse_variables-too_many :
    (io : Safeio)
    → SafeioLaws io
    → (auth : Bool) (vs : List Variable) (pre post : Bytes) (store_off store_size max_vars : ℕ)
    → All IsStorable vs
    → length pre ≡ store_off + store_header_size
    → store_off % 4 ≡ 0
    → store_header_size + length (serialize_vars auth vs) ≤ store_size
    → store_off + store_size ≤ length (pre ++ (serialize_vars auth vs ++ post))
    → store_off + store_size + 60 < u32_mod
    → max_vars < length vs
    → parse_variables io
        (pre ++ (serialize_vars auth vs ++ post))
        store_off
        store_size
        auth
        max_vars
      ≡ err too_large
unfolding parse_variables
parse_variables-too_many io laws auth vs pre post store_off store_size max_vars storable hdr aligned
      fits inside small count =
    let stop_eq : region_end (length (pre ++ (serialize_vars auth vs ++ post))) store_off store_size
        ≡ store_off + store_size =
      unfold region_end in ground arith in
    let start : add32 store_off store_header_size ≡ length pre = omega arith in
    rw (stop_eq, start)
      (walk-too_many io laws auth (store_off + store_size) max_vars vs pre post _ 0 [] storable
        (omega arith) (omega arith) small (omega arith) (omega arith) (omega arith) (omega arith))
