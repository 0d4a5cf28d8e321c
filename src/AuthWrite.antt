-- ===== src/AuthWrite.antt =====
-- authwrite.go: time-based authenticated writes, with the descriptor EFI_VARIABLE_AUTHENTICATION_2
-- that is put before the data.
pub mod Time
pub mod Total
pub mod RoundTrip
pub mod Signed
pub mod Written
pub mod Persisted
use uefi.Base.{
  ℕ, ◌+◌, ◌-◌, ◌*◌, ◌/◌, ◌%◌, Bool, true, false, not, ◌||◌, Option, none, some, List, [], ◌∷◌, ◌++◌,
  Bytes,
}
use uefi.Base.{
  Result, ok, err, panic, out_of_fuel, guard, ◌>>=◌, ◌>>◌, if◌then◌else◌, slice, slice_from, index,
  uint16_at, uint32_at, le16, le32, copy_at, set, replicate, take, length, ltb, leb, ◌==◌,
}
use uefi.Base.{
  no_signer, no_auth_attr, time_truncated, auth_too_small, bad_revision, bad_cert_type,
  bad_cert_length,
}
use uefi.Text.{encode_utf16le}
use uefi.Variable.{Guid, guid_bytes, guid_of, Variable, u32_mod}
use uefi.VariableStore.{VariableStore, and_then}
use uefi.SecureBoot.{secure_boot_attrs}
use uefi.Pkcs7.{Certificate, Crypto, sign_pkcs7_detached}

abbrev pub win_cert_revision : ℕ
win_cert_revision = 0x0200

abbrev pub win_cert_type_efi_guid : ℕ
win_cert_type_efi_guid = 0x0ef1

abbrev pub win_cert_header_size : ℕ
win_cert_header_size = 8

abbrev pub efi_time_size : ℕ
efi_time_size = 16

-- EFICertTypePKCS7GUID
abbrev pub efi_cert_type_pkcs7_guid : Guid
efi_cert_type_pkcs7_guid = record {
  b0 = 0x9d;
  b1 = 0xd2;
  b2 = 0xaf;
  b3 = 0x4a;
  b4 = 0xdf;
  b5 = 0x68;
  b6 = 0xee;
  b7 = 0x49;
  b8 = 0x8a;
  b9 = 0xa9;
  b10 = 0x34;
  b11 = 0x7d;
  b12 = 0x37;
  b13 = 0x56;
  b14 = 0x65;
  b15 = 0xa7;
}

-- The int16 `TimeZone` is kept as the uint16 with the same bits.
pub record EfiTime : Type 0 where
  pub year : ℕ
  pub month : ℕ
  pub day : ℕ
  pub hour : ℕ
  pub minute : ℕ
  pub second : ℕ
  pub nanosecond : ℕ
  pub time_zone : ℕ
  pub daylight : ℕ

-- What the methods Year, Month, Day, Hour, Minute and Second of a time.Time give in UTC.
pub record UtcTime : Type 0 where
  pub year : ℕ
  pub month : ℕ
  pub day : ℕ
  pub hour : ℕ
  pub minute : ℕ
  pub second : ℕ

-- EFITimeFromGoTime, for a year that is not negative.
abbrev pub efi_time_from_go_time : UtcTime → EfiTime
efi_time_from_go_time t = record {
  year = t.year % 65536;
  month = t.month % 256;
  day = t.day % 256;
  hour = t.hour % 256;
  minute = t.minute % 256;
  second = t.second % 256;
  nanosecond = 0;
  time_zone = 0;
  daylight = 0;
}

-- EFITime.Marshal
unfoldable pub marshal_efi_time : EfiTime → Bytes
unfolding copy_at
marshal_efi_time e =
    let dated = set (set (copy_at (replicate efi_time_size 0) 0 (le16 e.year)) 2 e.month) 3 e.day in
    let timed = set (set (set dated 4 e.hour) 5 e.minute) 6 e.second in
    let fine = copy_at timed 8 (le32 e.nanosecond) in
    set (copy_at fine 12 (le16 e.time_zone)) 14 e.daylight

-- parseEFITime
unfoldable pub parse_efi_time : Bytes → Result EfiTime
parse_efi_time b = do
  guard (not (ltb (length b) efi_time_size)) time_truncated
  year ← uint16_at b 0
  month ← index b 2
  day ← index b 3
  hour ← index b 4
  minute ← index b 5
  second ← index b 6
  nano ← uint32_at b 8
  zone ← uint16_at b 12
  daylight ← index b 14
  ok (record {
    year = year;
    month = month;
    day = day;
    hour = hour;
    minute = minute;
    second = second;
    nanosecond = nano;
    time_zone = zone;
    daylight = daylight;
  })

-- The key and the certificate, either of which can be nil.
pub record AuthSigner (Key Serial : Type 0) : Type 0 where
  pub key : Option Key
  pub cert : Option (Certificate Serial)

-- `if len(nameU16) >= 2 { nameU16 = nameU16[:len(nameU16)-2] }`
unfoldable pub drop_terminator : Bytes → Bytes
drop_terminator name = if leb 2 (length name) then take (length name - 2) name else name

-- digestTBS
unfoldable pub digest_tbs : Bytes → Guid → ℕ → EfiTime → Bytes → Bytes
unfolding drop_terminator marshal_efi_time
digest_tbs name guid attrs ts content =
    drop_terminator (encode_utf16le name)
    ++ (guid_bytes guid ++ (le32 attrs ++ (marshal_efi_time ts ++ content)))

-- AttrTimeBasedAuthenticatedWriteAccess is the bit of value 32.
abbrev pub attr_time_based : ℕ
attr_time_based = 0x00000020

-- `attrs&AttrTimeBasedAuthenticatedWriteAccess != 0`
abbrev pub has_time_based : ℕ → Bool
has_time_based attrs = attrs / attr_time_based % 2 == 1

-- `attrs | AttrTimeBasedAuthenticatedWriteAccess`
unfoldable pub or_time_based : ℕ → ℕ
or_time_based attrs = if has_time_based attrs then attrs else attrs + attr_time_based

-- The descriptor around a signature: the time, the certificate's header, its type and its data.
unfoldable pub descriptor : EfiTime → Bytes → Bytes
unfolding marshal_efi_time copy_at
descriptor ts p7 =
    let cert_len = win_cert_header_size + 16 + length p7 in
    let blank = replicate (win_cert_header_size + 16) 0 in
    let lengthed = copy_at blank 0 (le32 (cert_len % u32_mod)) in
    let revised = copy_at lengthed 4 (le16 win_cert_revision) in
    let typed = copy_at revised 6 (le16 win_cert_type_efi_guid) in
    let hdr = copy_at typed 8 (guid_bytes efi_cert_type_pkcs7_guid) in
    marshal_efi_time ts ++ (hdr ++ p7)

pub record Authentication2 : Type 0 where
  pub time_stamp : EfiTime
  pub cert_type : Guid
  pub pkcs7 : Bytes

-- ParseAuthentication2 behind the timestamp.
unfoldable pub parse_certificate : EfiTime → Bytes → Result Authentication2
parse_certificate ts cert = do
  dw_length ← uint32_at cert 0
  w_revision ← uint16_at cert 4
  w_cert_type ← uint16_at cert 6
  guard (w_revision == win_cert_revision) bad_revision
  guard (w_cert_type == win_cert_type_efi_guid) bad_cert_type
  guard (not (ltb dw_length (win_cert_header_size + 16) || ltb (length cert) dw_length))
      bad_cert_length
  raw ← slice cert 8 24
  p7 ← slice cert 24 dw_length
  ok (record { time_stamp = ts; cert_type = guid_of raw; pkcs7 = p7 })

-- ParseAuthentication2
unfoldable pub parse_authentication2 : Bytes → Result Authentication2
unfolding parse_efi_time parse_certificate
parse_authentication2 b = do
  guard (not (ltb (length b) (efi_time_size + win_cert_header_size + 16))) auth_too_small
  time_bytes ← slice b 0 efi_time_size
  ts ← parse_efi_time time_bytes
  cert ← slice_from b efi_time_size
  parse_certificate ts cert

-- The attributes that WriteAuthenticatedVariable writes.
unfoldable pub write_attrs : ℕ → ℕ
unfolding or_time_based
write_attrs attrs =
    or_time_based (if attrs == 0 then secure_boot_attrs + attr_time_based else attrs)

module _ {Key Serial : Type 0} (crypto : Crypto Key Serial) where
  -- `signer.Key == nil || signer.Cert == nil`, and then the signature.
  unfoldable pub sign_with : AuthSigner Key Serial → ℕ → Bytes → Result Bytes
  sign_with signer attrs tbs = elim signer.key [
    | none ↦ err no_signer
    | some key ↦ elim signer.cert [
      | none ↦ err no_signer
      | some cert ↦ (do
        guard (has_time_based attrs) no_auth_attr
        sign_pkcs7_detached crypto tbs key cert)
    ]
  ]

  -- BuildAuthentication2
  unfoldable pub build_authentication2 :
      Bytes → Guid → ℕ → Bytes → EfiTime → AuthSigner Key Serial → Result Bytes
  unfolding sign_with descriptor
  build_authentication2 name guid attrs content ts signer = do
    p7 ← sign_with signer attrs (digest_tbs name guid attrs ts content)
    ok (descriptor ts p7)

  module _ {S : Type 0} (vs : VariableStore S) where
    -- WriteAuthenticatedVariable
    unfoldable pub write_authenticated_variable :
        S → Bytes → Guid → ℕ → Bytes → EfiTime → AuthSigner Key Serial → S × Result (Unit {0})
    write_authenticated_variable s name guid attrs content ts signer =
        and_then (s, build_authentication2 name guid (write_attrs attrs) content ts signer)
          (λ s' desc. vs.set s' (record {
            name = name;
            guid = guid;
            attributes = write_attrs attrs;
            content = desc ++ content;
          }))
