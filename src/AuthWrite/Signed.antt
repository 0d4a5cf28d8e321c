-- ===== src/AuthWrite/Signed.antt =====
-- authwrite.go: BuildAuthentication2 with a signer, where the calls of the cryptography work.
use uefi.Base.{ℕ, ◌+◌, ◌<◌, ◌≡◌, ap, true, some, ◌++◌, Bytes, length}
use uefi.Base.{ok, ◌>>=◌}
use uefi.Variable.{Guid, u32_mod}
use uefi.Pkcs7.{
  Crypto, Certificate, signed_data, sign_pkcs7_detached, oid_signed_data, context_zero,
}
use uefi.AuthWrite.{
  EfiTime, AuthSigner, digest_tbs, descriptor, has_time_based, sign_with, build_authentication2,
  parse_authentication2, efi_cert_type_pkcs7_guid,
}
use uefi.AuthWrite.Time.{IsEfiTime}
use uefi.AuthWrite.RoundTrip.{parse_authentication2-descriptor}

-- The signer has a key and a certificate, and its signature over `tbs` is encoded as `p7`.
pub record Signs {Key Serial : Type 0} (crypto : Crypto Key Serial) (signer : AuthSigner Key Serial)
    (tbs p7 : Bytes) : Type 0 where
  pub key : Key
  pub cert : Certificate Serial
  pub sig : Bytes
  pub sd_der : Bytes
  pub has_key : signer.key ≡ some key
  pub has_cert : signer.cert ≡ some cert
  pub signs : crypto.sign_pkcs1v15 key (crypto.sha256 tbs) ≡ some sig
  pub encodes : crypto.marshal_signed_data (signed_data cert sig) ≡ some sd_der
  pub wraps :
      crypto.marshal_outer
        (record { content_type = oid_signed_data; content = context_zero sd_der })
      ≡ some p7

sign_with_ok :
    {Key Serial : Type 0} (crypto : Crypto Key Serial) (signer : AuthSigner Key Serial) (attrs : ℕ)
    (tbs p7 : Bytes)
    → has_time_based attrs ≡ true
    → Signs crypto signer tbs p7
    → sign_with crypto signer attrs tbs ≡ ok p7
unfolding sign_with sign_pkcs7_detached
sign_with_ok crypto signer attrs tbs p7 flagged h =
    rw (h.has_key, h.has_cert, flagged, h.signs, h.encodes, h.wraps)

-- With a key and a certificate, the flag of a time-based authenticated write, and a cryptography
-- whose calls work, BuildAuthentication2 succeeds, and ParseAuthentication2 reads the time, the
-- PKCS#7 type and the encoded signature from what it makes, with any bytes behind; the time is
-- within its types, and the signature leaves room for the header below 4 GiB.
pub build_authentication2_parses :
    {Key Serial : Type 0} (crypto : Crypto Key Serial) (name : Bytes) (guid : Guid) (attrs : ℕ)
    (content : Bytes) (ts : EfiTime) (signer : AuthSigner Key Serial) (p7 rest : Bytes)
    → has_time_based attrs ≡ true
    → Signs crypto signer (digest_tbs name guid attrs ts content) p7
    → IsEfiTime ts
    → 24 + length p7 < u32_mod
    → (desc : Bytes) × (build_authentication2 crypto name guid attrs content ts signer ≡ ok desc)
      × (parse_authentication2 (desc ++ rest)
          ≡ ok (record { time_stamp = ts; cert_type = efi_cert_type_pkcs7_guid; pkcs7 = p7 }))
unfolding build_authentication2
build_authentication2_parses crypto name guid attrs content ts signer p7 rest flagged signs timely
      small =
    (
      descriptor ts p7,
      ap (λ r. r >>= λ sig. ok (descriptor ts sig))
          (sign_with_ok crypto signer attrs (digest_tbs name guid attrs ts content) p7 flagged
            signs),
      parse_authentication2-descriptor ts p7 rest timely small,
    )
