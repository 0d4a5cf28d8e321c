-- ===== src/SecureBoot/SignatureList.antt =====
-- secureboot.go: the layout of the EFI_SIGNATURE_LIST that BuildEFISignatureList makes.
use uefi.Base.{
  ◌+◌, ◌%◌, ◌<◌, ◌≡◌, refl, ap, [], ◌∷◌, ◌++◌, Bytes, arith, le32, length, copy_at,
  copy_at-replicate, replicate, replicate_add,
}
use uefi.Base.{ok, panic, lt→ltb, le→ltb, ◌≤◌}
use uefi.Variable.{u32_mod, Guid, guid_bytes}
use uefi.SecureBoot.{efi_cert_x509_guid, build_efi_signature_list}

copy_at_nil : (dst : Bytes) → copy_at dst 0 [] ≡ dst
unfolding copy_at
copy_at_nil [] = refl
copy_at_nil (d ∷ ds) = refl

-- An EFI_SIGNATURE_LIST: the type, the list size, an empty header, the signature size, the owner and
-- the certificate, one after the other.
abbrev pub signature_list : Guid → Bytes → Bytes
signature_list owner cert =
    guid_bytes efi_cert_x509_guid
    ++ (le32 (44 + length cert)
        ++ (le32 0 ++ (le32 (length cert + 16) ++ (guid_bytes owner ++ cert))))

-- BuildEFISignatureList of a certificate whose list size is a uint32.
pub build_efi_signature_list_lem :
    (owner : Guid) (cert : Bytes)
    → 44 + length cert < u32_mod
    → build_efi_signature_list owner cert ≡ ok (signature_list owner cert)
unfolding build_efi_signature_list copy_at
build_efi_signature_list_lem owner cert h =
    let signature : (16 + length cert) % u32_mod ≡ length cert + 16 = omega arith in
    let whole : (28 + (length cert + 16)) % u32_mod ≡ 44 + length cert = omega arith in
    rw signature (
      rw whole (
        rw (le→ltb (44 + length cert) 44 (omega arith)) (
          rw (replicate_add 44 (length cert)) (
            rw (copy_at_nil (replicate (length cert) 0)) (
              ap
                (λ c. ok (
                  guid_bytes efi_cert_x509_guid
                  ++ (le32 (44 + length cert)
                      ++ (le32 0 ++ (le32 (length cert + 16) ++ (guid_bytes owner ++ c))))))
                (copy_at-replicate cert))))))

-- A certificate whose list size goes past 2^32 by less than the headers makes it panic.
pub build_efi_signature_list_wrap :
    (owner : Guid) (cert : Bytes)
    → u32_mod ≤ 44 + length cert
    → length cert < u32_mod
    → build_efi_signature_list owner cert ≡ panic
unfolding build_efi_signature_list
build_efi_signature_list_wrap owner cert h small =
    let wrapped : (28 + (16 + length cert) % u32_mod) % u32_mod < 44 = omega arith in
    rw (lt→ltb ((28 + (16 + length cert) % u32_mod) % u32_mod) 44 wrapped)
