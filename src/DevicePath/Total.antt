-- ===== src/DevicePath/Total.antt =====
-- devicepath.go: ParseDevicePath on any bytes.
use uefi.Base.{
  All, All-append, Ensures-map, false, ℕ, zero, suc, ◌+◌, ◌<◌, ◌≤◌, ◌≡◌, List, [], ◌∷◌, ◌++◌, Bytes,
  arith, length,
}
use uefi.Base.{
  leb, ltb, leb→le, Ensures, returns, fails, Ensures-bind, Ensures-guard, Ensures-if, Ensures-slice,
  index-Ensures, uint16-Ensures, guard_tripped, path_header_truncated, node_too_short,
  node_beyond_buffer,
}
use uefi.Safeio.{Safeio, SafeioLaws}
use uefi.DevicePath.{
  DevicePathNode, parse_node, parse_nodes, parse_device_path, node_length, is_end,
  max_device_path_bytes, path_header_size,
}

-- The bytes that the nodes take on disk.
abbrev pub total_length : List DevicePathNode → ℕ
total_length [] = 0
total_length (n ∷ ns) = node_length n + total_length ns

total_length-append :
    (xs ys : List DevicePathNode) → total_length (xs ++ ys) ≡ total_length xs + total_length ys
total_length-append [] ys = omega arith
total_length-append (x ∷ xs) ys = omega (arith, total_length-append xs ys)

-- A node that does not end a path.
abbrev pub IsNonEnd : DevicePathNode → Type 0
IsNonEnd n = is_end n ≡ false

module _ (io : Safeio) (laws : SafeioLaws io) (b : Bytes) where
  -- A node ends where its length says, within the buffer.
  abbrev Ends : ℕ → DevicePathNode × ℕ → Type 0
  Ends off (node, next) = (next ≡ off + node_length node) × (next ≤ length b)

  -- What stands before the End node, which takes four bytes.
  abbrev pub Inside : List DevicePathNode → Type 0
  Inside nodes = All IsNonEnd nodes × (total_length nodes + 4 ≤ length b)

  parse_node-Ensures : (rounds off : ℕ) → Ensures (Ends off) (parse_node io b rounds off)
  unfolding parse_node
  parse_node-Ensures rounds off =
      Ensures-guard (io.guard_next (length b + 1) rounds) guard_tripped λ _.
        Ensures-guard (io.check_bounds off path_header_size (length b)) path_header_truncated λ h.
          let header_in = (laws.check_bounds_iff off path_header_size (length b)).0 h in
          Ensures-bind (index-Ensures b off (omega arith)) λ typ _.
            Ensures-bind (index-Ensures b (off + 1) (omega arith)) λ sub _.
              Ensures-slice b (off + 2) (off + 4) _ (omega arith) (omega arith) λ word two.
                Ensures-bind (uint16-Ensures word (omega arith)) λ node_len _.
                  Ensures-guard (leb path_header_size node_len) node_too_short λ long.
                    Ensures-guard (io.check_bounds off node_len (length b)) node_beyond_buffer λ k.
                      let node_in = (laws.check_bounds_iff off node_len (length b)).0 k in
                      let enough = leb→le path_header_size node_len long in
                      Ensures-slice b (off + path_header_size) (off + node_len) _ (omega arith)
                        (omega arith) λ bytes size. returns (omega arith, node_in)

  parse_nodes-Ensures :
      (fuel rounds off : ℕ) (nodes : List DevicePathNode)
      → total_length nodes ≤ off
      → off ≤ length b
      → length b < off + fuel
      → All IsNonEnd nodes
      → Ensures Inside (parse_nodes io b fuel rounds off nodes)
  unfolding parse_nodes
  parse_nodes-Ensures zero rounds off nodes w o h inner = absurd (omega arith)
  parse_nodes-Ensures (suc fuel) rounds off nodes w o h inner =
      Ensures-bind (parse_node-Ensures rounds off) λ r e.
        Ensures-if (is_end r.0) (λ _. returns (inner, omega (arith, e)))
          λ other.
            parse_nodes-Ensures fuel (suc rounds) r.1 (nodes ++ r.0 ∷ [])
              (omega (arith, total_length-append nodes (r.0 ∷ []), e)) (omega (arith, e))
              (omega (arith, e)) (All-append IsNonEnd nodes (r.0 ∷ []) inner (other, tt))

  pub parse_device_path-Inside : Ensures Inside (parse_device_path io b)
  unfolding parse_device_path
  parse_device_path-Inside =
      Ensures-if (ltb max_device_path_bytes (length b)) (λ _. fails)
        λ _. parse_nodes-Ensures (length b + 1) 0 0 [] (omega arith) (omega arith) (omega arith) tt

  -- On any bytes ParseDevicePath ends without a panic and within its fuel, in an error or in nodes
  -- whose lengths add up to at most the length of the buffer.
  pub parse_device_path-Ensures :
      Ensures (λ nodes. total_length nodes ≤ length b) (parse_device_path io b)
  parse_device_path-Ensures =
      Ensures-map parse_device_path-Inside (λ nodes inside. omega (arith, inside))
