-- ===== src/DevicePath/RoundTrip.antt =====
-- devicepath.go: ParseDevicePath on what MarshalDevicePath wrote.
use uefi.Base.{ok-injective}
use uefi.Base.{
  ℕ, zero, suc, ◌+◌, ◌<◌, ◌≤◌, ◌≡◌, refl, sym, ap, ◌∙◌, false, List, [], ◌∷◌, ◌++◌, Bytes, arith,
  length, length-append, append_assoc, append-nil, Bool-cases, inl, inr,
}
use uefi.Base.{
  Result, Error, ok, err, index, uint16-le16, le16, leb, leb→le, le→leb, le→ltb, slice_at, index_at,
  slice_ok, slice_mid_at, >>=-eq-ok,
}
use uefi.Safeio.{Safeio, SafeioLaws}
use uefi.DevicePath.{
  DevicePathNode, parse_node, parse_nodes, parse_device_path, marshal_nodes, marshal_device_path,
  node_length, is_end, max_device_path_bytes, path_header_size, end_node,
}

abbrev encoded : DevicePathNode → Bytes
encoded n = n.node_type ∷ n.sub_type ∷ le16 (node_length n)

module _ (io : Safeio) (laws : SafeioLaws io) where
  -- One node behind `pre`.
  parse_node-encoded :
      (pre rest : Bytes) (n : DevicePathNode) (rounds : ℕ)
      → node_length n ≤ 0xffff
      → rounds ≤ length pre
      → parse_node io (pre ++ (encoded n ++ (n.content ++ rest))) rounds (length pre)
        ≡ ok (n, length pre + node_length n)
  unfolding parse_node index
  parse_node-encoded pre rest n rounds short guarded = rw (
    laws.guard_next_within (length b + 1) rounds (omega (arith, size)),
    (laws.check_bounds_iff (length pre) path_header_size (length b)).1 (omega (arith, size)),
    index_at pre xs 0 {a = length pre} (omega arith),
    index_at pre xs 1 {a = length pre + 1} refl,
    slice_at pre xs 2 4 {a = length pre + 2} {b = length pre + 4} refl refl
        ∙ slice_ok xs 2 4 (omega arith) (omega arith),
    uint16-le16 (node_length n) [] (omega arith),
    le→leb path_header_size (node_length n) (omega arith),
    (laws.check_bounds_iff (length pre) (node_length n) (length b)).1 (omega (arith, size)),
    slice_at pre xs 4 (node_length n) {a = length pre + 4} {b = length pre + node_length n} refl
          refl
        ∙ slice_mid_at (encoded n) n.content rest refl refl,
  )
    where
      xs : Bytes
      xs = encoded n ++ (n.content ++ rest)

      b : Bytes
      b = pre ++ xs

      size : length b ≡ length pre + (node_length n + length rest)
      size = omega (arith, length-append pre xs, length-append n.content rest)

-- What a successful marshal says of its first node.
pub record Marshalled (n : DevicePathNode) (ns : List DevicePathNode) (enc : Bytes) : Type 0 where
  pub behind : Bytes
  pub inner : is_end n ≡ false
  pub short : node_length n ≤ 0xffff
  pub others : marshal_nodes ns ≡ ok behind
  pub bytes : enc ≡ encoded n ++ (n.content ++ behind)

marshal_nodes-cons :
    (n : DevicePathNode) (ns : List DevicePathNode) (enc : Bytes)
    → marshal_nodes (n ∷ ns) ≡ ok enc
    → Marshalled n ns enc
unfolding marshal_nodes
marshal_nodes-cons n ns enc e = elim (Bool-cases (is_end n)) [
  | inl last ↦ absurd (not_ok (rw last at e))
  | inr inner ↦ elim (Bool-cases (leb (node_length n) 0xffff)) [
    | inl short ↦
        let (behind, others, eq) = >>=-eq-ok (marshal_nodes ns) _ (rw (inner, short) at e) in
        record {
          behind = behind;
          inner = inner;
          short = leb→le _ _ short;
          others = others;
          bytes = ok-injective (sym eq);
        }
    | inr long ↦ absurd (not_ok (rw (inner, long) at e))
  ]
]
  where
    not_ok : {x : Error} → ◌≡◌ {A = Result Bytes} (err x) (ok enc) → ⊥
    not_ok h = cc

-- The End node as a node.
abbrev last_node : DevicePathNode
last_node = record { node_type = 0x7f; sub_type = 0xff; content = [] }

module _ (io : Safeio) (laws : SafeioLaws io) where
  parse_nodes_next :
      (b : Bytes) (fuel rounds off : ℕ) (nodes : List DevicePathNode) {n : DevicePathNode}
      {next : ℕ}
      → parse_node io b rounds off ≡ ok (n, next)
      → is_end n ≡ false
      → parse_nodes io b (suc fuel) rounds off nodes
        ≡ parse_nodes io b fuel (suc rounds) next (nodes ++ n ∷ [])
  unfolding parse_nodes
  parse_nodes_next b fuel rounds off nodes e inner = rw (e, inner)

  parse_nodes-marshal_nodes :
      (ns : List DevicePathNode) (pre enc rest : Bytes) (fuel rounds : ℕ)
      (nodes : List DevicePathNode)
      → marshal_nodes ns ≡ ok enc
      → rounds ≤ length pre
      → length enc < fuel
      → parse_nodes io (pre ++ (enc ++ (end_node ++ rest))) fuel rounds (length pre) nodes
        ≡ ok (nodes ++ ns)
  unfolding parse_nodes
  parse_nodes-marshal_nodes ns pre enc rest zero rounds nodes e guarded fuelled =
      absurd (omega arith)
  parse_nodes-marshal_nodes [] pre enc rest (suc fuel) rounds nodes e guarded fuelled =
      let none : enc ≡ [] = unfold marshal_nodes in cc (e) in
      rw (
        none,
        parse_node-encoded io laws pre rest last_node rounds (omega arith) guarded,
        append-nil,
      )
  parse_nodes-marshal_nodes (n ∷ ns) pre enc rest (suc fuel) rounds nodes e guarded fuelled =
      let m = marshal_nodes-cons n ns enc e in
      let tail = m.behind ++ (end_node ++ rest) in
      let here = encoded n ++ n.content in
      let whole : enc ++ (end_node ++ rest) ≡ encoded n ++ (n.content ++ tail) =
        ap (λ x. x ++ (end_node ++ rest)) m.bytes
        ∙ ap (λ x. encoded n ++ x) (append_assoc n.content m.behind (end_node ++ rest)) in
      let front : length (pre ++ here) ≡ length pre + node_length n =
        omega (arith, length-append pre here) in
      let size = ap length m.bytes in
      let ih =
        parse_nodes-marshal_nodes ns (pre ++ here) m.behind rest fuel (suc rounds) (nodes ++ n ∷ [])
          m.others (omega (arith, front)) (omega (arith, size, length-append n.content m.behind)) in
      ap (λ x. parse_nodes io (pre ++ x) (suc fuel) rounds (length pre) nodes) whole
      ∙ parse_nodes_next (pre ++ (encoded n ++ (n.content ++ tail))) fuel rounds (length pre) nodes
          (parse_node-encoded io laws pre tail n rounds m.short guarded) m.inner
      ∙ (rw (append_assoc pre here tail, front, append_assoc nodes (n ∷ []) ns) at ih)

  -- Whatever MarshalDevicePath makes of a node list, ParseDevicePath reads the list back from it,
  -- with any bytes behind, within the 64 KiB ceiling.
  pub parse_device_path-marshal_device_path :
      (nodes : List DevicePathNode) (buf rest : Bytes)
      → marshal_device_path nodes ≡ ok buf
      → length (buf ++ rest) ≤ max_device_path_bytes
      → parse_device_path io (buf ++ rest) ≡ ok nodes
  unfolding parse_device_path marshal_device_path
  parse_device_path-marshal_device_path nodes buf rest e short =
      let (enc, encs, whole) = >>=-eq-ok (marshal_nodes nodes) _ e in
      let same : buf ++ rest ≡ enc ++ (end_node ++ rest) =
        ap (λ x. x ++ rest) (ok-injective (sym whole)) ∙ append_assoc enc end_node rest in
      rw (le→ltb max_device_path_bytes (length (buf ++ rest)) short) (
        rw same (
          parse_nodes-marshal_nodes nodes [] enc rest _ 0 [] encs (omega arith)
            (omega (arith, length-append enc (end_node ++ rest)))))
