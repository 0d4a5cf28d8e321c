-- ===== src/DevicePath/Views.antt =====
-- devicepath.go: the typed views of Media nodes, file paths and hard drives.
pub mod Laws
use uefi.Base.{ℕ, ◌+◌, Bool, not, ◌||◌, Option, some, none, List, [], ◌∷◌, Bytes}
use uefi.Base.{
  Result, ok, err, panic, out_of_fuel, ◌>>=◌, slice, index, uint32_at, uint64_at, le32, le64,
  copy_at, set, replicate, ltb, ◌==◌, length, if◌then◌else◌,
}
use uefi.Text.{encode_utf16le, decode_utf16le}
use uefi.Variable.{Guid, guid_bytes, guid_of}
use uefi.DevicePath.{DevicePathNode, type_media}

abbrev pub media_sub_hd : ℕ
media_sub_hd = 0x01

abbrev pub media_sub_file : ℕ
media_sub_file = 0x04

-- FilePathNode
abbrev pub file_path_node : Bytes → DevicePathNode
file_path_node path = record {
  node_type = type_media;
  sub_type = media_sub_file;
  content = encode_utf16le path;
}

abbrev pub decoded : Result Bytes → Result (Option Bytes)
decoded (ok s) = ok (some s)
decoded (err e) = ok none
decoded panic = panic
decoded out_of_fuel = out_of_fuel

-- FilePath: `none` for Go's false.
unfoldable pub file_path : DevicePathNode → Result (Option Bytes)
file_path n =
    if not (n.node_type == type_media) || not (n.sub_type == media_sub_file)
    then ok none
    else decoded (decode_utf16le n.content)

-- The signature is an array of 16 bytes, as a GUID is.
pub record HardDriveNode : Type 0 where
  pub partition_number : ℕ
  pub partition_start : ℕ
  pub partition_size : ℕ
  pub signature : Guid
  pub mbr_type : ℕ
  pub signature_type : ℕ

-- HardDriveNode.Node
unfoldable pub node : HardDriveNode → DevicePathNode
unfolding copy_at
node hd =
    let numbered = copy_at (replicate 38 0) 0 (le32 hd.partition_number) in
    let started = copy_at numbered 4 (le64 hd.partition_start) in
    let sized = copy_at started 12 (le64 hd.partition_size) in
    let signed = copy_at sized 20 (guid_bytes hd.signature) in
    record {
      node_type = type_media;
      sub_type = media_sub_hd;
      content = set (set signed 36 hd.mbr_type) 37 hd.signature_type;
    }

-- HardDrive: `none` for Go's false.
unfoldable pub hard_drive : DevicePathNode → Result (Option HardDriveNode)
hard_drive n =
    if not (n.node_type == type_media) || not (n.sub_type == media_sub_hd)
    then ok none
    else if ltb (length n.content) 38
    then ok none
    else (do
      number ← uint32_at n.content 0
      start ← uint64_at n.content 4
      size ← uint64_at n.content 12
      sig ← slice n.content 20 36
      mbr ← index n.content 36
      typ ← index n.content 37
      ok (
          some (record {
            partition_number = number;
            partition_start = start;
            partition_size = size;
            signature = guid_of sig;
            mbr_type = mbr;
            signature_type = typ;
          })))
