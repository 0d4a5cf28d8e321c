-- ===== src/Walk/Torn.antt =====
-- uefi.go: parseVariables on what serializeVars wrote, cut off anywhere.
use uefi.Base.{
  ℕ, zero, suc, ◌+◌, ◌-◌, ◌%◌, ◌<◌, ◌≤◌, ◌≡◌, refl, ◌∙◌, Bool, true, false, Bytes, List, [], ◌∷◌,
  ◌++◌, append_assoc, append-nil, arith, length, length-append, length-take, take, take-append_le,
  take-append_ge, Option, none, All, Bool-cases, inl, inr,
}
use uefi.Base.{Result, ok, ltb, leb, Ensures, returns, fails, yields, if◌then◌else◌}
use uefi.Safeio.{Safeio, SafeioLaws}
use uefi.Variable.{u32_mod, Variable, IsStorable, store_header_size}
use uefi.Record.{add32, encode_variable}
use uefi.Record.RoundTrip.{encode_variable_aligned}
use uefi.Record.Bounds.{parse_one_variable-Ensures}
use uefi.Record.Torn.{NoValue, parse_one_variable_torn}
use uefi.Walk.{take_parsed, walk_step, walk, serialize_vars, region_end, parse_variables}
use uefi.Walk.RoundTrip.{walk_step-encode_variable, walk_next}

-- The variables whose records lie whole in the first `k` bytes of what serializeVars writes.
unfoldable pub whole_records : Bool → List Variable → ℕ → List Variable
whole_records auth [] k = []
whole_records auth (v ∷ vs) k =
    let size = length (encode_variable auth v) in
    let rest = whole_records auth vs (k - size) in if ltb k size then [] else v ∷ rest

if_same {ℓ} : {A : Type ℓ} (b : Bool) {x y z : A} → x ≡ z → y ≡ z → (if b then x else y) ≡ z
if_same true e e' = e
if_same false e e' = e'

take_parsed_torn :
    {P : Option Variable × ℕ → Type 0} (stop max_vars off : ℕ) (vars : List Variable)
    {r : Result (Option Variable × ℕ)}
    → Ensures P r
    → NoValue r
    → take_parsed stop max_vars off vars r ≡ ok none
unfolding take_parsed
take_parsed_torn stop max_vars off vars fails _ = refl
take_parsed_torn stop max_vars off vars (returns h) (yields x) = absurd x

module _ (io : Safeio) (laws : SafeioLaws io) (auth : Bool) (stop max_vars : ℕ) where
  walk_step_torn :
      (pre : Bytes) (v : Variable) (k rounds : ℕ) (vars : List Variable)
      → k < length (encode_variable auth v)
      → length pre % 4 ≡ 0
      → length pre + length (encode_variable auth v) + 60 < u32_mod
      → stop ≡ length pre + k
      → walk_step io
          (pre ++ take k (encode_variable auth v))
          stop
          auth
          max_vars
          rounds
          (length pre)
          vars
        ≡ ok none
  unfolding walk_step
  walk_step_torn pre v k rounds vars cut aligned small ends =
      let buf = pre ++ take k (encode_variable auth v) in
      let sized : length buf ≡ stop = omega (
        arith,
        length-append pre (take k (encode_variable auth v)),
        length-take k (encode_variable auth v),
      ) in
      if_same (leb (add32 (length pre) 2) stop)
        (if_same (io.guard_next (stop + 1) rounds)
          (take_parsed_torn stop max_vars (length pre) vars
            (parse_one_variable-Ensures io laws buf (length pre) stop auth (omega arith)
              (omega (arith, sized)) (omega arith))
            (rw ends (parse_one_variable_torn io auth v pre k cut aligned small)))
          refl)
        refl

  walk_end :
      (buf : Bytes) (fuel rounds off : ℕ) (vars : List Variable)
      → walk_step io buf stop auth max_vars rounds off vars ≡ ok none
      → walk io buf stop auth max_vars (suc fuel) rounds off vars ≡ ok vars
  unfolding walk
  walk_end buf fuel rounds off vars e = rw e

  -- The walk collects the whole records and ends at the torn one.
  pub walk_torn :
      (vs : List Variable) (pre : Bytes) (k fuel rounds : ℕ) (vars : List Variable)
      → All IsStorable vs
      → length pre % 4 ≡ 0
      → k < length (serialize_vars auth vs)
      → length pre + length (serialize_vars auth vs) + 60 < u32_mod
      → length vars + length vs ≤ max_vars
      → rounds ≤ length pre
      → stop < length pre + fuel
      → stop ≡ length pre + k
      → walk io
          (pre ++ take k (serialize_vars auth vs))
          stop
          auth
          max_vars
          fuel
          rounds
          (length pre)
          vars
        ≡ ok (vars ++ whole_records auth vs k)
  unfolding serialize_vars whole_records
  walk_torn [] pre k fuel rounds vars storable aligned cut small count guarded fuelled ends =
      absurd (omega arith)
  walk_torn (v ∷ vs) pre k zero rounds vars storable aligned cut small count guarded fuelled ends =
      absurd (omega arith)
  walk_torn (v ∷ vs) pre k (suc fuel) rounds vars (h, hs) aligned cut small count guarded fuelled
        ends =
      let e = encode_variable auth v in
      let ser = serialize_vars auth vs in
      let both = length-append e ser in
      let sized = encode_variable_aligned auth v (omega (arith, both)) in
      let front = length-append pre e in
      let more = length-append vars (v ∷ []) in
      elim (Bool-cases (ltb k (length e))) [
        | inl torn ↦
            rw (torn, take-append_le k e ser (ground arith), append-nil)
              (walk_end _ fuel rounds (length pre) vars (
                walk_step_torn pre v k rounds vars (ground arith) aligned (omega (arith, both))
                  ends))
        | inr kept ↦
            let kept_in : length e ≤ k = ground arith in
            let ih =
              walk_torn vs (pre ++ e) (k - length e) fuel (suc rounds) (vars ++ v ∷ []) hs
                (omega (arith, front, sized)) (omega (arith, both)) (omega (arith, both, front))
                (omega (arith, more)) (omega (arith, front, sized)) (omega (arith, front, sized))
                (omega (arith, front)) in
            rw (kept, take-append_ge k e ser kept_in)
              (walk_next io laws auth stop max_vars _ fuel rounds (length pre) vars (
                  walk_step-encode_variable io laws auth stop max_vars pre (take (k - length e) ser)
                    v rounds vars h aligned (omega arith) (omega (arith, both)) (omega arith)
                    (omega arith))
                ∙ (rw (append_assoc pre e, front, append_assoc vars (v ∷ [])) at ih))
      ]

pub whole_records_all :
    (auth : Bool) (vs : List Variable) (k : ℕ)
    → length (serialize_vars auth vs) ≤ k
    → whole_records auth vs k ≡ vs
unfolding whole_records serialize_vars
whole_records_all auth [] k h = refl
whole_records_all auth (v ∷ vs) k h =
    let both = length-append (encode_variable auth v) (serialize_vars auth vs) in
    let kept : ltb k (length (encode_variable auth v)) ≡ false = ground arith in
    rw (kept, whole_records_all auth vs (k - length (encode_variable auth v)) (omega (arith, both)))

-- parseVariables finds the whole records in a region that is cut off in a record.
pub parse_variables_torn :
    (io : Safeio)
    → SafeioLaws io
    → (auth : Bool) (vs : List Variable) (pre : Bytes) (k store_off store_size max_vars : ℕ)
    → All IsStorable vs
    → length pre ≡ store_off + store_header_size
    → store_off % 4 ≡ 0
    → k < length (serialize_vars auth vs)
    → store_off + store_size ≡ length pre + k
    → length pre + length (serialize_vars auth vs) + 60 < u32_mod
    → length vs ≤ max_vars
    → parse_variables io (pre ++ take k (serialize_vars auth vs)) store_off store_size auth max_vars
      ≡ ok (whole_records auth vs k)
unfolding parse_variables
parse_variables_torn io laws auth vs pre k store_off store_size max_vars storable hdr aligned cut
      ends small count =
    let buf = pre ++ take k (serialize_vars auth vs) in
    let sized : length buf ≡ length pre + k = omega (
      arith,
      length-append pre (take k (serialize_vars auth vs)),
      length-take k (serialize_vars auth vs),
    ) in
    let stop_eq : region_end (length buf) store_off store_size ≡ length pre + k =
      unfold region_end in ground arith in
    let start : add32 store_off store_header_size ≡ length pre = omega arith in
    rw (stop_eq, start)
      (walk_torn io laws auth (length pre + k) max_vars vs pre k _ 0 [] storable (omega arith) cut
        small (omega arith) (omega arith) (omega arith) refl)
