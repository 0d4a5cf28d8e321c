-- ===== src/Walk/RoundTrip.antt =====
-- uefi.go: parseVariables on what serializeVars wrote.
use uefi.Base.{
  ℕ, zero, suc, ◌+◌, ◌%◌, ◌<◌, ◌≤◌, ◌≡◌, ap, ◌∙◌, Bool, Bytes, List, [], ◌∷◌, ◌++◌, append_assoc,
  append-nil, ◌⊎◌, ok, err, length, length-append, arith, some, none, inl, inr,
}
use uefi.Base.{le→leb, lt→leb, le→ltb, slice, slice_ok, All, uint16, slice_at, end_of_region}
use native.Mathlib.Nat.{add-zero}
use uefi.Safeio.{Safeio, SafeioLaws}
use uefi.Variable.{u32_mod, Variable, IsStorable, store_header_size}
use uefi.Record.{add32, parse_one_variable, encode_variable}
use uefi.Record.RoundTrip.{parse_one_variable-encode_variable, encode_variable_aligned}
use uefi.Walk.{walk_step, walk, parse_variables, serialize_vars, region_end}

-- No record begins at the end of `pre` in `pre ++ post`: there is no room for the two bytes of a
-- StartId before `stop`, or they are those of erased flash.
abbrev pub IsErased : ℕ → Bytes → ℕ → Type 0
IsErased at post stop = (stop < at + 2) ⊎ ((tail : Bytes) × (post ≡ 0xff ∷ 0xff ∷ tail))

module _ (io : Safeio) (laws : SafeioLaws io) (auth : Bool) (stop max_vars : ℕ) where
  -- At erased flash the walk ends with what it has.
  walk_step-erased :
      (pre post : Bytes) (rounds : ℕ) (vars : List Variable)
      → IsErased (length pre) post stop
      → length pre + 2 < u32_mod
      → walk_step io (pre ++ post) stop auth max_vars rounds (length pre) vars ≡ ok none
  unfolding walk_step
  walk_step-erased pre post rounds vars (inl full) room =
      rw (lt→leb (add32 (length pre) 2) stop (omega arith))
  walk_step-erased pre post rounds vars (inr (tail, e)) room = rw no_record (ground arith)
    where
      start : slice (pre ++ post) (length pre) (add32 (length pre) 2) ≡ ok (0xff ∷ 0xff ∷ [])
      start = rw e (
          slice_at pre _ 0 2 (omega arith) (omega arith)
          ∙ slice_ok _ 0 2 (omega arith) (omega arith))

      no_record : parse_one_variable io (pre ++ post) (length pre) stop auth ≡ err end_of_region
      no_record = unfold parse_one_variable uint16 in rw start (ground arith)

  -- A record is taken, and the walk goes on behind it.
  pub walk_step-encode_variable :
      (pre post : Bytes) (v : Variable) (rounds : ℕ) (vars : List Variable)
      → IsStorable v
      → length pre % 4 ≡ 0
      → length pre + length (encode_variable auth v) ≤ stop
      → stop < u32_mod
      → rounds ≤ stop
      → length vars < max_vars
      → walk_step io
          (pre ++ (encode_variable auth v ++ post))
          stop
          auth
          max_vars
          rounds
          (length pre)
          vars
        ≡ ok (some (length pre + length (encode_variable auth v), vars ++ v ∷ []))
  unfolding walk_step
  walk_step-encode_variable pre post v rounds vars storable aligned fits small guarded room =
      let next = length pre + length (encode_variable auth v) in
      let size = (encode_variable_aligned auth v (omega arith)).0 in
      rw (
        le→leb (add32 (length pre) 2) stop (omega arith),
        laws.guard_next_within (stop + 1) rounds (omega arith),
        parse_one_variable-encode_variable auth v io laws pre post stop storable aligned fits small,
        lt→leb next (length pre) (omega arith),
        le→ltb stop next fits,
        lt→leb max_vars (length vars) room,
      )

  pub walk_next :
      (buf : Bytes) (fuel rounds off : ℕ) (vars : List Variable) {next : ℕ} {kept : List Variable}
      → walk_step io buf stop auth max_vars rounds off vars ≡ ok (some (next, kept))
      → walk io buf stop auth max_vars (suc fuel) rounds off vars
        ≡ walk io buf stop auth max_vars fuel (suc rounds) next kept
  unfolding walk
  walk_next buf fuel rounds off vars e = rw e

  -- From the first record on, the walk collects the variables in order.
  walk-serialize_vars :
      (vs : List Variable) (pre post : Bytes) (fuel rounds : ℕ) (vars : List Variable)
      → All IsStorable vs
      → length pre % 4 ≡ 0
      → length pre + length (serialize_vars auth vs) ≤ stop
      → stop + 60 < u32_mod
      → length vars + length vs ≤ max_vars
      → rounds ≤ length pre
      → stop < length pre + fuel
      → IsErased (length pre + length (serialize_vars auth vs)) post stop
      → walk io
          (pre ++ (serialize_vars auth vs ++ post))
          stop
          auth
          max_vars
          fuel
          rounds
          (length pre)
          vars
        ≡ ok (vars ++ vs)
  unfolding walk serialize_vars
  walk-serialize_vars vs pre post zero rounds vars storable aligned fits small count guarded fuelled
        erased =
      absurd (omega arith)
  walk-serialize_vars [] pre post (suc fuel) rounds vars storable aligned fits small count guarded
        fuelled erased =
      rw (walk_step-erased pre post rounds vars (rw add-zero at erased) (omega arith), append-nil)
  walk-serialize_vars (v ∷ vs) pre post (suc fuel) rounds vars (h, hs) aligned fits small count
        guarded fuelled erased =
      let e = encode_variable auth v in
      let ser = serialize_vars auth vs in
      let both = length-append e ser in
      let sized = encode_variable_aligned auth v (omega (arith, both)) in
      let front = length-append pre e in
      let behind : length pre + length (e ++ ser) ≡ length (pre ++ e) + length ser =
        omega (arith, both, front) in
      let more = length-append vars (v ∷ []) in
      let ih =
        walk-serialize_vars vs (pre ++ e) post fuel (suc rounds) (vars ++ v ∷ []) hs
          (omega (arith, front, sized)) (omega (arith, behind)) small (omega (arith, more))
          (omega (arith, front, sized)) (omega (arith, front, sized)) (rw behind at erased) in
      ap (λ b. walk io b stop auth max_vars (suc fuel) rounds (length pre) vars)
        (ap (λ b. pre ++ b) (append_assoc e ser post))
      ∙ walk_next (pre ++ (e ++ (ser ++ post))) fuel rounds (length pre) vars (
          walk_step-encode_variable pre (ser ++ post) v rounds vars h aligned (omega (arith, both))
            (omega arith) (omega (arith, both, sized)) (omega arith))
      ∙ (rw (append_assoc pre e, front, append_assoc vars (v ∷ []) vs) at ih)

-- parseVariables reads back, in order, the storable variables that serializeVars wrote behind the
-- header of an aligned store, where erased flash or the end follows, they fit in the region, the
-- region lies in the file and ends at least 61 below 2^32, and they are at most the limit.
pub parse_variables-serialize_vars :
    (io : Safeio)
    → SafeioLaws io
    → (auth : Bool) (vs : List Variable) (pre post : Bytes) (store_off store_size max_vars : ℕ)
    → All IsStorable vs
    → length pre ≡ store_off + store_header_size
    → store_off % 4 ≡ 0
    → store_header_size + length (serialize_vars auth vs) ≤ store_size
    → store_off + store_size ≤ length (pre ++ (serialize_vars auth vs ++ post))
    → store_off + store_size + 60 < u32_mod
    → length vs ≤ max_vars
    → IsErased (length pre + length (serialize_vars auth vs)) post (store_off + store_size)
    → parse_variables io
        (pre ++ (serialize_vars auth vs ++ post))
        store_off
        store_size
        auth
        max_vars
      ≡ ok vs
unfolding parse_variables
parse_variables-serialize_vars io laws auth vs pre post store_off store_size max_vars storable hdr
      aligned fits inside small count erased =
    let stop_eq : region_end (length (pre ++ (serialize_vars auth vs ++ post))) store_off store_size
        ≡ store_off + store_size =
      unfold region_end in ground arith in
    let start : add32 store_off store_header_size ≡ length pre = omega arith in
    rw (stop_eq, start)
      (walk-serialize_vars io laws auth (store_off + store_size) max_vars vs pre post _ 0 []
        storable (omega arith) (omega arith) small (omega arith) (omega arith) (omega arith) erased)
