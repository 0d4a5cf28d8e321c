-- ===== src/Pkcs7.antt =====
-- authwrite.go, the PKCS#7 encoder: the values that signPKCS7Detached hands to encoding/asn1. The
-- digest, the signature and asn1.Marshal are parameters, the last two of which can fail.
use uefi.Base.{ℕ, Bool, true, false, Option, none, some, List, [], ◌∷◌, Bytes}
use uefi.Base.{Result, ok, err, ◌>>=◌, Error, sign_failed, marshal_failed}

-- asn1.ObjectIdentifier
abbrev pub ObjectIdentifier : Type 0
ObjectIdentifier = List ℕ

abbrev pub oid_data : ObjectIdentifier
oid_data = 1 ∷ 2 ∷ 840 ∷ 113549 ∷ 1 ∷ 7 ∷ 1 ∷ []

abbrev pub oid_signed_data : ObjectIdentifier
oid_signed_data = 1 ∷ 2 ∷ 840 ∷ 113549 ∷ 1 ∷ 7 ∷ 2 ∷ []

abbrev pub oid_sha256 : ObjectIdentifier
oid_sha256 = 2 ∷ 16 ∷ 840 ∷ 1 ∷ 101 ∷ 3 ∷ 4 ∷ 2 ∷ 1 ∷ []

abbrev pub oid_rsa_encrypt : ObjectIdentifier
oid_rsa_encrypt = 1 ∷ 2 ∷ 840 ∷ 113549 ∷ 1 ∷ 1 ∷ 1 ∷ []

abbrev pub pkcs7_signer_ver : ℕ
pkcs7_signer_ver = 1

abbrev pub pkcs7_signed_ver : ℕ
pkcs7_signed_ver = 1

-- asn1.RawValue, by the fields that the source sets.
pub record RawValue : Type 0 where
  pub class : ℕ
  pub tag : ℕ
  pub is_compound : Bool
  pub bytes : Bytes
  pub full_bytes : Bytes

-- asn1.NullRawValue, of tag 5.
abbrev pub null_raw_value : RawValue
null_raw_value = record { class = 0; tag = 5; is_compound = false; bytes = []; full_bytes = [] }

-- A compound value of the context-specific class, which is 2, with tag 0.
abbrev pub context_zero : Bytes → RawValue
context_zero bs = record { class = 2; tag = 0; is_compound = true; bytes = bs; full_bytes = [] }

pub record AlgorithmIdentifier : Type 0 where
  pub algorithm : ObjectIdentifier
  pub parameters : RawValue

-- The serial number is a big.Int, which the source only hands on.
pub record IssuerAndSerial (Serial : Type 0) : Type 0 where
  pub issuer_raw : RawValue
  pub serial_number : Serial

pub record ContentInfoEmpty : Type 0 where
  pub content_type : ObjectIdentifier

pub record SignerInfo (Serial : Type 0) : Type 0 where
  pub version : ℕ
  pub issuer_and_serial_number : IssuerAndSerial Serial
  pub digest_algorithm : AlgorithmIdentifier
  pub digest_encryption_algorithm : AlgorithmIdentifier
  pub encrypted_digest : Bytes

pub record SignedData (Serial : Type 0) : Type 0 where
  pub version : ℕ
  pub digest_algorithms : List AlgorithmIdentifier
  pub content_info : ContentInfoEmpty
  pub certificates : RawValue
  pub signer_infos : List (SignerInfo Serial)

pub record OuterContentInfo : Type 0 where
  pub content_type : ObjectIdentifier
  pub content : RawValue

-- The fields of x509.Certificate that the source reads.
pub record Certificate (Serial : Type 0) : Type 0 where
  pub raw : Bytes
  pub raw_issuer : Bytes
  pub serial_number : Serial

-- crypto.SHA256, rsa.SignPKCS1v15 of a SHA-256 digest, and asn1.Marshal at the two types.
pub record Crypto (Key Serial : Type 0) : Type 0 where
  pub sha256 : Bytes → Bytes
  pub sign_pkcs1v15 : Key → Bytes → Option Bytes
  pub marshal_signed_data : SignedData Serial → Option Bytes
  pub marshal_outer : OuterContentInfo → Option Bytes

abbrev pub or_error : Error → Option Bytes → Result Bytes
or_error e none = err e
or_error e (some bs) = ok bs

abbrev sha256_identifier : AlgorithmIdentifier
sha256_identifier = record { algorithm = oid_sha256; parameters = null_raw_value }

-- The SignedData around a signature.
unfoldable pub signed_data : {Serial : Type 0} → Certificate Serial → Bytes → SignedData Serial
signed_data cert sig = record {
  version = pkcs7_signed_ver;
  digest_algorithms = sha256_identifier ∷ [];
  content_info = record { content_type = oid_data };
  certificates = context_zero cert.raw;
  signer_infos =
      (record {
        version = pkcs7_signer_ver;
        issuer_and_serial_number = record {
          issuer_raw = record {
            class = 0;
            tag = 0;
            is_compound = false;
            bytes = [];
            full_bytes = cert.raw_issuer;
          };
          serial_number = cert.serial_number;
        };
        digest_algorithm = sha256_identifier;
        digest_encryption_algorithm = record {
          algorithm = oid_rsa_encrypt;
          parameters = null_raw_value;
        };
        encrypted_digest = sig;
      })
      ∷ [];
}

-- signPKCS7Detached
unfoldable pub sign_pkcs7_detached :
    {Key Serial : Type 0} → Crypto Key Serial → Bytes → Key → Certificate Serial → Result Bytes
unfolding signed_data
sign_pkcs7_detached crypto content key cert = do
  sig ← or_error sign_failed (crypto.sign_pkcs1v15 key (crypto.sha256 content))
  sd_der ← or_error marshal_failed (crypto.marshal_signed_data (signed_data cert sig))
  or_error marshal_failed (
      crypto.marshal_outer
        (record { content_type = oid_signed_data; content = context_zero sd_der }))
