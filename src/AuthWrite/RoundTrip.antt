-- ===== src/AuthWrite/RoundTrip.antt =====
-- authwrite.go: ParseAuthentication2 on what BuildAuthentication2 makes.
use uefi.Base.{
  ℕ, ◌-◌, ◌+◌, ◌%◌, ◌<◌, ◌≡◌, refl, sym, ap, subst, ◌∙◌, ◌++◌, Bytes, arith, append_assoc, length,
  length-append, take, drop, take-append, drop-append, le→ltb,
}
use uefi.Base.{
  ok, >>=-eq-ok, slice, slice_ok, slice_from_ok, uint16_at, uint32_at, uint32-le32, uint16, le16,
  le32,
}
use uefi.Variable.{Guid, guid_bytes, guid_of, u32_mod}
use uefi.Pkcs7.{Crypto}
use uefi.AuthWrite.{
  EfiTime, AuthSigner, digest_tbs, descriptor, sign_with, build_authentication2,
  parse_authentication2, parse_certificate, marshal_efi_time, efi_cert_type_pkcs7_guid,
  win_cert_revision, win_cert_type_efi_guid,
}
use uefi.AuthWrite.Time.{IsEfiTime, length-marshal_efi_time, parse_efi_time-marshal_efi_time}

-- The certificate's header, type and data.
abbrev certificate : Bytes → Bytes
certificate p7 =
    le32 ((24 + length p7) % u32_mod)
    ++ (le16 win_cert_revision
        ++ (le16 win_cert_type_efi_guid ++ (guid_bytes efi_cert_type_pkcs7_guid ++ p7)))

descriptor_lem :
    (ts : EfiTime) (p7 : Bytes) → descriptor ts p7 ≡ marshal_efi_time ts ++ certificate p7
unfolding descriptor
descriptor_lem ts p7 = refl

parse_certificate-certificate :
    (ts : EfiTime) (p7 rest : Bytes)
    → 24 + length p7 < u32_mod
    → parse_certificate ts (certificate p7 ++ rest)
      ≡ ok (record { time_stamp = ts; cert_type = efi_cert_type_pkcs7_guid; pkcs7 = p7 })
unfolding parse_certificate uint16_at uint32_at uint16 guid_of slice
parse_certificate-certificate ts p7 rest small =
    let cert = certificate p7 ++ rest in
    let sized : (24 + length p7) % u32_mod ≡ 24 + length p7 = omega arith in
    let long : length cert ≡ 24 + length p7 + length rest = omega (arith, length-append p7 rest) in
    let tail =
      le16 win_cert_revision
      ++ (le16 win_cert_type_efi_guid ++ (guid_bytes efi_cert_type_pkcs7_guid ++ (p7 ++ rest))) in
    let width : 24 + length p7 - 24 ≡ length p7 = omega arith in
    rw
      (
        slice_from_ok cert 0 (omega arith),
        slice_from_ok cert 4 (omega arith),
        slice_from_ok cert 6 (omega arith),
        slice_ok cert 8 24 (omega arith) (omega arith),
      )
      (rw (uint32-le32 ((24 + length p7) % u32_mod) tail (omega arith), sized)
        (rw (
          le→ltb (24 + length p7) 24 (omega arith),
          le→ltb (length cert) (24 + length p7) (omega arith),
          slice_ok cert 24 (24 + length p7) (omega arith) (omega arith),
          width,
          take-append p7 rest,
        )))

-- ParseAuthentication2 reads a descriptor back, with any bytes behind.
pub parse_authentication2-descriptor :
    (ts : EfiTime) (p7 rest : Bytes)
    → IsEfiTime ts
    → 24 + length p7 < u32_mod
    → parse_authentication2 (descriptor ts p7 ++ rest)
      ≡ ok (record { time_stamp = ts; cert_type = efi_cert_type_pkcs7_guid; pkcs7 = p7 })
unfolding parse_authentication2
parse_authentication2-descriptor ts p7 rest timely small =
    let front = marshal_efi_time ts in
    let cert = certificate p7 ++ rest in
    let whole : descriptor ts p7 ++ rest ≡ front ++ cert =
      ap (λ d. d ++ rest) (descriptor_lem ts p7) ∙ append_assoc front (certificate p7) rest in
    let sixteen = length-marshal_efi_time ts in
    let sized : length (front ++ cert) ≡ 40 + length p7 + length rest =
      omega (arith, sixteen, length-append front cert, length-append p7 rest) in
    let head : take (16 - 0) (drop 0 (front ++ cert)) ≡ front =
      ap (λ n. take n (front ++ cert)) (sym sixteen) ∙ take-append front cert in
    let tail : drop 16 (front ++ cert) ≡ cert =
      ap (λ n. drop n (front ++ cert)) (sym sixteen) ∙ drop-append front cert in
    rw whole (
      rw
        (
          le→ltb (length (front ++ cert)) 40 (omega arith),
          slice_ok (front ++ cert) 0 16 (omega arith) (omega arith),
          slice_from_ok (front ++ cert) 16 (omega arith),
        )
        (rw (head, tail)
          (rw (parse_efi_time-marshal_efi_time ts timely)
            (parse_certificate-certificate ts p7 rest small))))

length-descriptor : (ts : EfiTime) (p7 : Bytes) → length (descriptor ts p7) ≡ 40 + length p7
length-descriptor ts p7 = rw (descriptor_lem ts p7) (
    omega (arith, length-marshal_efi_time ts, length-append (marshal_efi_time ts) (certificate p7)))

read_back :
    (ts : EfiTime) (p7 desc rest : Bytes)
    → IsEfiTime ts
    → descriptor ts p7 ≡ desc
    → length desc < u32_mod
    → parse_authentication2 (desc ++ rest)
      ≡ ok (record { time_stamp = ts; cert_type = efi_cert_type_pkcs7_guid; pkcs7 = p7 })
read_back ts p7 desc rest timely made small =
    subst
      (λ (d : Bytes).
        parse_authentication2 (d ++ rest)
        ≡ ok (record { time_stamp = ts; cert_type = efi_cert_type_pkcs7_guid; pkcs7 = p7 }))
      made
      (parse_authentication2-descriptor ts p7 rest timely
        (omega (arith, length-descriptor ts p7, ap length made)))

-- What BuildAuthentication2 makes, with any bytes behind it, ParseAuthentication2 reads back: the
-- timestamp, the PKCS#7 type, and a signature over the name, the GUID, the attributes, the time and
-- the data, which the signer made. The time is within its types, and the signature below 4 GiB.
pub parse_authentication2-build_authentication2 :
    {Key Serial : Type 0} (crypto : Crypto Key Serial) (name : Bytes) (guid : Guid) (attrs : ℕ)
    (content : Bytes) (ts : EfiTime) (signer : AuthSigner Key Serial) (desc rest : Bytes)
    → IsEfiTime ts
    → build_authentication2 crypto name guid attrs content ts signer ≡ ok desc
    → length desc < u32_mod
    → (p7 : Bytes) × (sign_with crypto signer attrs (digest_tbs name guid attrs ts content) ≡ ok p7)
      × (parse_authentication2 (desc ++ rest)
          ≡ ok (record { time_stamp = ts; cert_type = efi_cert_type_pkcs7_guid; pkcs7 = p7 }))
unfolding build_authentication2
parse_authentication2-build_authentication2 crypto name guid attrs content ts signer desc rest
      timely built small =
    let (p7, signed, e) =
      >>=-eq-ok (sign_with crypto signer attrs (digest_tbs name guid attrs ts content)) _ built in
    let made : descriptor ts p7 ≡ desc = cc in
    (p7, signed, read_back ts p7 desc rest timely made small)
