-- ===== src/DevicePath/Views/Laws.antt =====
-- devicepath.go: the typed views on what they were built from, and on any node.
use uefi.Base.{
  ℕ, not, ◌||◌, ◌==◌, ◌^◌, ◌<◌, ◌≤◌, ◌≡◌, refl, false, some, [], ◌∷◌, ◌++◌, Bytes, arith, ltb,
  length,
}
use uefi.Base.{
  Result, ok, err, Ensures, returns, Ensures-bind, Ensures-if, uint32_at, uint64_at, slice, index,
  slice_from, le64, uint32-le32, uint64-le64, uint32_at-Ensures, uint64_at-Ensures, slice-Ensures,
  index-Ensures, Ensures-ne-panic, Ensures-ne-out_of_fuel, panic, out_of_fuel,
}
use uefi.Variable.{guid_bytes, guid_of}
use uefi.Text.RoundTrip.{IsUtf8, decode_utf16le-encode_utf16le, decode_utf16le-Ensures}
use uefi.Text.{decode_utf16le}
use uefi.DevicePath.{DevicePathNode, type_media}
use uefi.DevicePath.Views.{
  HardDriveNode, media_sub_hd, media_sub_file, decoded, node, hard_drive, file_path, file_path_node,
}

-- FilePath gives back every valid path that FilePathNode was given.
pub file_path-file_path_node :
    (path : Bytes) → IsUtf8 path → file_path (file_path_node path) ≡ ok (some path)
unfolding file_path
file_path-file_path_node path h = rw (decode_utf16le-encode_utf16le path h)

-- HardDrive gives back every partition that Node was given, its number being a uint32, and its
-- start and size uint64.
pub hard_drive-node :
    (hd : HardDriveNode)
    → hd.partition_number < 2 ^ 32
    → hd.partition_start < 2 ^ 64
    → hd.partition_size < 2 ^ 64
    → hard_drive (node hd) ≡ ok (some hd)
unfolding hard_drive node uint32_at uint64_at slice_from slice index guid_of
hard_drive-node hd number start size =
    let after_size = guid_bytes hd.signature ++ hd.mbr_type ∷ hd.signature_type ∷ [] in
    let after_start = le64 hd.partition_size ++ after_size in
    rw (
      uint32-le32 hd.partition_number (le64 hd.partition_start ++ after_start) number,
      uint64-le64 hd.partition_start after_start start,
      uint64-le64 hd.partition_size after_size size,
    )

-- FilePath neither panics nor hangs, whatever the node.
pub file_path-Ensures : (n : DevicePathNode) → Ensures (λ _. Unit {0}) (file_path n)
unfolding file_path
file_path-Ensures n =
    Ensures-if (not (n.node_type == type_media) || not (n.sub_type == media_sub_file))
      (λ _. returns tt)
      (λ _. decoded-Ensures (decode_utf16le n.content) (decode_utf16le-Ensures n.content))
  where
    decoded-Ensures :
        (r : Result Bytes) → Ensures (λ _. Unit {0}) r → Ensures (λ _. Unit {0}) (decoded r)
    decoded-Ensures (ok s) h = returns tt
    decoded-Ensures (err e) h = returns tt
    decoded-Ensures panic h = absurd (Ensures-ne-panic h refl)
    decoded-Ensures out_of_fuel h = absurd (Ensures-ne-out_of_fuel h refl)

-- HardDrive neither panics nor hangs, whatever the node.
pub hard_drive-Ensures : (n : DevicePathNode) → Ensures (λ _. Unit {0}) (hard_drive n)
unfolding hard_drive
hard_drive-Ensures n =
    Ensures-if (not (n.node_type == type_media) || not (n.sub_type == media_sub_hd))
      (λ _. returns tt)
      (λ _.
        Ensures-if (ltb (length n.content) 38) (λ _. returns tt)
          (λ enough.
            let long : 38 ≤ length n.content = ltb_not (length n.content) 38 enough in
            Ensures-bind (uint32_at-Ensures n.content 0 (omega arith)) (λ number _.
              Ensures-bind (uint64_at-Ensures n.content 4 (omega arith)) (λ start _.
                Ensures-bind (uint64_at-Ensures n.content 12 (omega arith)) (λ size _.
                  Ensures-bind (slice-Ensures n.content 20 36 (omega arith) (omega arith)) (λ sig _.
                    Ensures-bind (index-Ensures n.content 36 (omega arith)) (λ mbr _.
                      Ensures-bind (index-Ensures n.content 37 (omega arith))
                        (λ typ _. returns tt))))))))
  where
    ltb_not : (a b : ℕ) → ltb a b ≡ false → b ≤ a
    ltb_not a b h = ground arith
