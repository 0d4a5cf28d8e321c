-- ===== src/SecureBoot.antt =====
-- secureboot.go: EFI_SIGNATURE_LIST blobs, and the enrolment of the Secure Boot keys.
pub mod Enrol
pub mod Provisioned
pub mod SignatureList
use uefi.Base.{ℕ, ◌+◌, ◌%◌, List, [], ◌∷◌, Bytes}
use uefi.Base.{
  Result, ok, err, panic, out_of_fuel, le32, copy_at, replicate, length, ltb, if◌then◌else◌,
}
use uefi.Variable.{u32_mod, Guid, guid_bytes, Variable}
use uefi.VariableStore.{VariableStore, and_then}

-- EFIGlobalVariableGUID
abbrev pub efi_global_variable_guid : Guid
efi_global_variable_guid = record {
  b0 = 0x61;
  b1 = 0xdf;
  b2 = 0xe4;
  b3 = 0x8b;
  b4 = 0xca;
  b5 = 0x93;
  b6 = 0xd2;
  b7 = 0x11;
  b8 = 0xaa;
  b9 = 0x0d;
  b10 = 0x00;
  b11 = 0xe0;
  b12 = 0x98;
  b13 = 0x03;
  b14 = 0x2b;
  b15 = 0x8c;
}

-- EFIImageSecurityDatabaseGUID
abbrev pub efi_image_security_database_guid : Guid
efi_image_security_database_guid = record {
  b0 = 0xcb;
  b1 = 0xb2;
  b2 = 0x19;
  b3 = 0xd7;
  b4 = 0x3a;
  b5 = 0x3d;
  b6 = 0x96;
  b7 = 0x45;
  b8 = 0xa3;
  b9 = 0xbc;
  b10 = 0xda;
  b11 = 0xd0;
  b12 = 0x0e;
  b13 = 0x67;
  b14 = 0x65;
  b15 = 0x6f;
}

-- EFICertX509GUID
abbrev pub efi_cert_x509_guid : Guid
efi_cert_x509_guid = record {
  b0 = 0xa1;
  b1 = 0x59;
  b2 = 0xc0;
  b3 = 0xa5;
  b4 = 0xe4;
  b5 = 0x94;
  b6 = 0xa7;
  b7 = 0x4a;
  b8 = 0x87;
  b9 = 0xb5;
  b10 = 0xab;
  b11 = 0x15;
  b12 = 0x5c;
  b13 = 0x2b;
  b14 = 0xf0;
  b15 = 0x72;
}

abbrev pub secure_boot_attrs : ℕ
secure_boot_attrs = 0x00000007

-- BuildEFISignatureList. The sizes are uint32 sums; the buffer has `listSize` bytes. Where these are
-- fewer than the 44 of the headers, one of the slices `buf[0:16]` to `buf[28:44]` panics, or the
-- PutUint32 into one does; where the sum went past 2^32 and they are not, the certificate is cut by
-- `copy`.
unfoldable pub build_efi_signature_list : Guid → Bytes → Result Bytes
unfolding copy_at
build_efi_signature_list owner cert =
    let sig_size = (16 + length cert) % u32_mod in
    let list_size = (28 + sig_size) % u32_mod in
    let buf = replicate list_size 0 in
    let typed = copy_at buf 0 (guid_bytes efi_cert_x509_guid) in
    let listed = copy_at typed 16 (le32 list_size) in
    let headed = copy_at listed 20 (le32 0) in
    let sized = copy_at headed 24 (le32 sig_size) in
    let owned = copy_at sized 28 (guid_bytes owner) in
    if ltb list_size 44 then panic else ok (copy_at owned 44 cert)

pub record SecureBootKeys : Type 0 where
  pub pk : Bytes
  pub kek : Bytes
  pub db : Bytes

pub record Entry : Type 0 where
  pub name : Bytes
  pub ns : Guid
  pub cert : Bytes

-- "db", "KEK" and "PK"
abbrev pub db_name : Bytes
db_name = b'd' ∷ b'b' ∷ []

abbrev pub kek_name : Bytes
kek_name = b'K' ∷ b'E' ∷ b'K' ∷ []

abbrev pub pk_name : Bytes
pk_name = b'P' ∷ b'K' ∷ []

abbrev pub db_entry : SecureBootKeys → Entry
db_entry keys = record { name = db_name; ns = efi_image_security_database_guid; cert = keys.db }

abbrev pub kek_entry : SecureBootKeys → Entry
kek_entry keys = record { name = kek_name; ns = efi_global_variable_guid; cert = keys.kek }

abbrev pub pk_entry : SecureBootKeys → Entry
pk_entry keys = record { name = pk_name; ns = efi_global_variable_guid; cert = keys.pk }

-- The order of enrolment: writing PK last leaves Setup Mode.
abbrev pub entries : SecureBootKeys → List Entry
entries keys = db_entry keys ∷ kek_entry keys ∷ pk_entry keys ∷ []

-- The variable that enrolOne writes.
abbrev pub key_variable : Entry → Bytes → Variable
key_variable e sl = record {
  name = e.name;
  guid = e.ns;
  attributes = secure_boot_attrs;
  content = sl;
}

module _ {S : Type 0} (vs : VariableStore S) where
  -- enrollOne
  abbrev pub enroll_one : S → Entry → S × Result (Unit {0})
  enroll_one s e =
      and_then (s, build_efi_signature_list efi_global_variable_guid e.cert)
        (λ s' sl. vs.set s' (key_variable e sl))

  -- The loop of EnrollSecureBootKeys, which stops at the first error.
  unfoldable pub enroll_all : S → List Entry → S × Result (Unit {0})
  enroll_all s [] = (s, ok tt)
  enroll_all s (e ∷ es) = and_then (enroll_one s e) (λ s' _. enroll_all s' es)

  -- EnrollSecureBootKeys
  unfoldable pub enroll_secure_boot_keys : S → SecureBootKeys → S × Result (Unit {0})
  unfolding enroll_all
  enroll_secure_boot_keys s keys = enroll_all s (entries keys)
