-- ===== src/DevicePath/PathText.antt =====
-- devicepath.go: the text form of device paths.
mod Verbs
pub mod Total
pub mod Kept
unfoldable pub use Verbs.*
use uefi.Base.{
  ℕ, zero, suc, ◌+◌, ◌-◌, ◌*◌, ◌/◌, ◌%◌, Bool, true, false, not, ◌&&◌, ◌||◌, Option, some, none,
  List, [], ◌∷◌, ◌++◌, Bytes,
}
use uefi.Base.{
  Result, ok, err, ◌>>=◌, ◌>>◌, index, uint32_at, uint32, slice, take, ltb, leb, ◌==◌, length,
  if◌then◌else◌,
}
use uefi.Variable.{Guid, guid_of, guid_bytes}
use uefi.DevicePath.{DevicePathNode, type_hardware, type_acpi, type_messaging, type_media}
use uefi.DevicePath.Views.{HardDriveNode, hard_drive, file_path, media_sub_hd, media_sub_file}

abbrev pub hw_sub_pci : ℕ
hw_sub_pci = 0x01

abbrev pub acpi_sub_acpi : ℕ
acpi_sub_acpi = 0x01

abbrev pub msg_sub_mac : ℕ
msg_sub_mac = 0x0b

abbrev pub msg_sub_ipv4 : ℕ
msg_sub_ipv4 = 0x0c

abbrev pub msg_sub_ipv6 : ℕ
msg_sub_ipv6 = 0x0d

abbrev pub media_sub_cdrom : ℕ
media_sub_cdrom = 0x02

abbrev pub media_sub_vendor : ℕ
media_sub_vendor = 0x03

abbrev pub media_sub_fv_file : ℕ
media_sub_fv_file = 0x06

abbrev pub media_sub_fv : ℕ
media_sub_fv = 0x07

abbrev pub hd_mbr_type_gpt : ℕ
hd_mbr_type_gpt = 0x02

abbrev pub hd_sig_type_mbr : ℕ
hd_sig_type_mbr = 0x01

abbrev pub hd_sig_type_guid : ℕ
hd_sig_type_guid = 0x02

-- What the formats have before their first verb.
abbrev pub pci_prefix : Bytes
pci_prefix = b'P' ∷ b'c' ∷ b'i' ∷ b'(' ∷ b'0' ∷ b'x' ∷ []

abbrev pub pci_root_prefix : Bytes
pci_root_prefix = b'P' ∷ b'c' ∷ b'i' ∷ b'R' ∷ b'o' ∷ b'o' ∷ b't' ∷ b'(' ∷ b'0' ∷ b'x' ∷ []

abbrev pub acpi_prefix : Bytes
acpi_prefix = b'A' ∷ b'c' ∷ b'p' ∷ b'i' ∷ b'(' ∷ b'0' ∷ b'x' ∷ []

abbrev pub mac_prefix : Bytes
mac_prefix = b'M' ∷ b'A' ∷ b'C' ∷ b'(' ∷ []

abbrev pub ipv4_prefix : Bytes
ipv4_prefix = b'I' ∷ b'P' ∷ b'v' ∷ b'4' ∷ b'(' ∷ []

abbrev pub ipv6_prefix : Bytes
ipv6_prefix = b'I' ∷ b'P' ∷ b'v' ∷ b'6' ∷ b'(' ∷ []

abbrev pub msg_prefix : Bytes
msg_prefix = b'M' ∷ b's' ∷ b'g' ∷ b'(' ∷ b'0' ∷ b'x' ∷ []

abbrev pub file_prefix : Bytes
file_prefix = b'F' ∷ b'i' ∷ b'l' ∷ b'e' ∷ b'(' ∷ []

abbrev pub cdrom_prefix : Bytes
cdrom_prefix = b'C' ∷ b'D' ∷ b'R' ∷ b'O' ∷ b'M' ∷ b'(' ∷ []

abbrev pub media_vendor_prefix : Bytes
media_vendor_prefix =
    b'M' ∷ b'e' ∷ b'd' ∷ b'i' ∷ b'a' ∷ b'V' ∷ b'e' ∷ b'n' ∷ b'd' ∷ b'o' ∷ b'r' ∷ b'(' ∷ []

abbrev pub path_prefix : Bytes
path_prefix = b'P' ∷ b'a' ∷ b't' ∷ b'h' ∷ b'(' ∷ b'0' ∷ b'x' ∷ []

abbrev pub hd_prefix : Bytes
hd_prefix = b'H' ∷ b'D' ∷ b'(' ∷ []

abbrev pub gpt : Bytes
gpt = b'G' ∷ b'P' ∷ b'T' ∷ []

abbrev pub mbr : Bytes
mbr = b'M' ∷ b'B' ∷ b'R' ∷ []

abbrev pub closing : Bytes
closing = b')' ∷ []

abbrev pub comma : Bytes
comma = b',' ∷ []

abbrev pub comma_hex : Bytes
comma_hex = b',' ∷ b'0' ∷ b'x' ∷ []

abbrev pub hex_prefix : Bytes
hex_prefix = b'0' ∷ b'x' ∷ []

-- guidText: the first three words are little-endian, the rest is written byte by byte.
unfoldable pub guid_text : Guid → Bytes
guid_text g =
    hex8 (g.b0 + 256 * g.b1 + 65536 * g.b2 + 16777216 * g.b3)
    ++ (b'-' ∷ hex4 (g.b4 + 256 * g.b5))
    ++ (b'-' ∷ hex4 (g.b6 + 256 * g.b7))
    ++ (b'-' ∷ hex2 g.b8 ++ hex2 g.b9)
    ++ (b'-' ∷ hex2 g.b10 ++ hex2 g.b11 ++ hex2 g.b12 ++ hex2 g.b13 ++ hex2 g.b14 ++ hex2 g.b15)

-- The signature in a hard drive's text. The first four bytes of the array are its MBR signature.
unfoldable pub signature_text : HardDriveNode → Bytes
unfolding guid_text
signature_text hd =
    let word =
      hd.signature.b0
      + 256 * hd.signature.b1
      + 65536 * hd.signature.b2
      + 16777216 * hd.signature.b3 in
    if hd.signature_type == hd_sig_type_guid
    then guid_text hd.signature
    else if hd.signature_type == hd_sig_type_mbr
    then hex_prefix ++ hex8 word
    else b'0' ∷ []

-- HardDriveNode.text
unfoldable pub hard_drive_text : HardDriveNode → Bytes
unfolding signature_text digits
hard_drive_text hd =
    hd_prefix
    ++ decimal hd.partition_number
    ++ comma
    ++ (if hd.mbr_type == hd_mbr_type_gpt then gpt else mbr)
    ++ comma
    ++ signature_text hd
    ++ comma_hex
    ++ hex hd.partition_start
    ++ comma_hex
    ++ hex hd.partition_size
    ++ closing

-- The cases of DevicePathNode.text that return, by the type of the node: `none` goes on to the
-- generic form.
unfoldable pub hardware_text : DevicePathNode → Result (Option Bytes)
unfolding digits
hardware_text n =
    if n.sub_type == hw_sub_pci && leb 2 (length n.content)
    then (do
      device ← index n.content 1
      function ← index n.content 0
      ok (some (pci_prefix ++ hex device ++ comma_hex ++ hex function ++ closing)))
    else ok none

unfoldable pub acpi_text : DevicePathNode → Result (Option Bytes)
unfolding digits
acpi_text n =
    if n.sub_type == acpi_sub_acpi && leb 8 (length n.content)
    then (do
      hid ← slice n.content 0 4 >>= uint32
      uid ← slice n.content 4 8 >>= uint32
      ok (
          some (
            if hid == 0x0a0341d0
            then pci_root_prefix ++ hex uid ++ closing
            else acpi_prefix ++ hex hid ++ comma_hex ++ hex uid ++ closing)))
    else ok none

unfoldable pub messaging_text : DevicePathNode → Bytes
unfolding digits hex_bytes
messaging_text n =
    if n.sub_type == msg_sub_mac
    then mac_prefix ++ hex_bytes n.content ++ closing
    else if n.sub_type == msg_sub_ipv4
    then ipv4_prefix ++ hex_bytes n.content ++ closing
    else if n.sub_type == msg_sub_ipv6
    then ipv6_prefix ++ hex_bytes n.content ++ closing
    else msg_prefix ++ hex n.sub_type ++ comma ++ hex_bytes n.content ++ closing

abbrev hd_text : Option HardDriveNode → Option Bytes
hd_text none = none
hd_text (some hd) = some (hard_drive_text hd)

abbrev file_text : Option Bytes → Option Bytes
file_text none = none
file_text (some p) = some (file_prefix ++ p ++ closing)

abbrev pub is_vendor : ℕ → Bool
is_vendor s = s == media_sub_vendor || s == media_sub_fv_file || s == media_sub_fv

unfoldable pub media_text : DevicePathNode → Result (Option Bytes)
unfolding hex_bytes guid_text
media_text n =
    if n.sub_type == media_sub_hd
    then (hard_drive n >>= λ hd. ok (hd_text hd))
    else if n.sub_type == media_sub_file
    then (file_path n >>= λ p. ok (file_text p))
    else if n.sub_type == media_sub_cdrom
    then ok (some (cdrom_prefix ++ hex_bytes n.content ++ closing))
    else if is_vendor n.sub_type && leb 16 (length n.content)
    then (slice n.content 0 16 >>= λ g.
        ok (some (media_vendor_prefix ++ (guid_text (guid_of g) ++ closing))))
    else ok none

unfoldable pub generic_text : DevicePathNode → Bytes
unfolding digits hex_bytes
generic_text n =
    path_prefix
    ++ (hex n.node_type
        ++ (comma_hex ++ (hex n.sub_type ++ (comma ++ (hex_bytes n.content ++ closing)))))

abbrev or_generic : DevicePathNode → Option Bytes → Bytes
or_generic n none = generic_text n
or_generic n (some t) = t

-- DevicePathNode.text
unfoldable pub node_text : DevicePathNode → Result Bytes
unfolding hardware_text acpi_text messaging_text media_text generic_text
node_text n =
    let typed =
      if n.node_type == type_hardware
      then hardware_text n
      else if n.node_type == type_acpi
      then acpi_text n
      else if n.node_type == type_messaging
      then ok (some (messaging_text n))
      else if n.node_type == type_media
      then media_text n
      else ok none in
    typed >>= λ t. ok (or_generic n t)

-- strings.Join of what follows the first part.
abbrev join_from : Bytes → List Bytes → Bytes
join_from t [] = t
join_from t (u ∷ us) = t ++ (b'/' ∷ join_from u us)

abbrev join : List Bytes → Bytes
join [] = []
join (t ∷ ts) = join_from t ts

unfoldable pub node_texts : List DevicePathNode → Result (List Bytes)
unfolding node_text
node_texts [] = ok []
node_texts (n ∷ ns) = do t ← node_text n; ts ← node_texts ns; ok (t ∷ ts)

-- DevicePathText
unfoldable pub device_path_text : List DevicePathNode → Result Bytes
unfolding node_texts
device_path_text nodes = node_texts nodes >>= λ parts. ok (join parts)
