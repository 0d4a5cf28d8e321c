-- ===== src/DevicePath/Reparse.antt =====
-- devicepath.go: MarshalDevicePath on what ParseDevicePath returned.
use uefi.Base.{
  ◌≤◌, ◌≡◌, refl, All, List, [], ◌∷◌, ◌++◌, Bytes, arith, length, length-append, append-nil, subst,
}
use uefi.Base.{le16, ok, ltb, le→leb, Ensures-ok, Bool-cases, inl, inr}
use uefi.Safeio.{Safeio, SafeioLaws}
use uefi.DevicePath.{
  DevicePathNode, parse_device_path, marshal_nodes, marshal_device_path, node_length, end_node,
  max_device_path_bytes,
}
use uefi.DevicePath.Total.{total_length, IsNonEnd, parse_device_path-Inside}
use uefi.DevicePath.RoundTrip.{parse_device_path-marshal_device_path}

marshal_nodes_ok :
    (ns : List DevicePathNode)
    → All IsNonEnd ns
    → total_length ns ≤ 0xffff
    → (enc : Bytes) × (marshal_nodes ns ≡ ok enc) × (length enc ≡ total_length ns)
unfolding marshal_nodes
marshal_nodes_ok [] h fits = ([], refl, refl)
marshal_nodes_ok (n ∷ ns) (inner, hs) fits =
    let (enc, e, size) = marshal_nodes_ok ns hs (omega arith) in
    (
      (n.node_type ∷ n.sub_type ∷ le16 (node_length n)) ++ (n.content ++ enc),
      rw (inner, le→leb (node_length n) 0xffff (omega arith), e),
      omega (arith, size, length-append n.content enc),
    )

-- What ParseDevicePath makes of any bytes, MarshalDevicePath writes in at most as many, and
-- ParseDevicePath reads the same nodes back from that.
pub marshal_device_path-parse_device_path :
    (io : Safeio)
    → SafeioLaws io
    → (b : Bytes) (nodes : List DevicePathNode) → parse_device_path io b ≡ ok nodes
    → (buf : Bytes) × (marshal_device_path nodes ≡ ok buf)
      × (length buf ≤ length b)
      × (parse_device_path io buf ≡ ok nodes)
unfolding marshal_device_path
marshal_device_path-parse_device_path io laws b nodes h =
    let (inner, inside) = Ensures-ok (parse_device_path-Inside io laws b) h in
    let within = within_limit in
    let (enc, e, size) = marshal_nodes_ok nodes inner (omega arith) in
    let total = length-append enc end_node in
    let made : marshal_device_path nodes ≡ ok (enc ++ end_node) =
      unfold marshal_device_path in rw e in
    (
      enc ++ end_node,
      made,
      omega arith,
      subst (λ x. parse_device_path io x ≡ ok nodes) (append-nil (enc ++ end_node))
          (parse_device_path-marshal_device_path io laws nodes (enc ++ end_node) [] made
            (omega (arith, total, length-append (enc ++ end_node) []))),
    )
  where
    within_limit : length b ≤ max_device_path_bytes
    within_limit = elim (Bool-cases (ltb max_device_path_bytes (length b))) [
      | inl long ↦ unfold parse_device_path in cc (rw (parse_device_path, long) at h)
      | inr short ↦ ground arith
    ]
