-- ===== src/AuthWrite/Total.antt =====
-- authwrite.go: ParseAuthentication2 on bytes of any kind.
use uefi.Base.{
  ℕ, ◌+◌, ◌≤◌, ◌-◌, ◌≡◌, subst, Bytes, arith, length, length-drop, drop, ltb, not, ◌||◌, ◌==◌,
}
use uefi.Base.{
  Ensures, returns, Ensures-bind, Ensures-guard, Ensures-slice, slice_from_ok, uint16_at-Ensures,
  uint32_at-Ensures,
}
use uefi.AuthWrite.{
  Authentication2, EfiTime, parse_authentication2, parse_certificate, win_cert_revision,
  win_cert_type_efi_guid,
}
use uefi.AuthWrite.Time.{parse_efi_time-Ensures}

-- The certificate data leave room for the time and the certificate's header.
abbrev pub HasRoom : ℕ → Authentication2 → Type 0
HasRoom size a = 40 + length a.pkcs7 ≤ size

parse_certificate-Ensures :
    (ts : EfiTime) (cert : Bytes)
    → 24 ≤ length cert
    → Ensures (HasRoom (16 + length cert)) (parse_certificate ts cert)
unfolding parse_certificate
parse_certificate-Ensures ts cert long =
    Ensures-bind (uint32_at-Ensures cert 0 (omega arith)) (λ dw_length _.
      Ensures-bind (uint16_at-Ensures cert 4 (omega arith)) (λ revision _.
        Ensures-bind (uint16_at-Ensures cert 6 (omega arith)) (λ type _.
          Ensures-guard (revision == win_cert_revision) _ (λ _.
            Ensures-guard (type == win_cert_type_efi_guid) _ (λ _.
              Ensures-guard (not (ltb dw_length 24 || ltb (length cert) dw_length)) _ (λ sized.
                let low : 24 ≤ dw_length = ground arith in
                let high : dw_length ≤ length cert = ground arith in
                Ensures-slice cert 8 24 _ (omega arith) (omega arith) (λ raw _.
                  Ensures-slice cert 24 dw_length _ low high
                    (λ p7 size. returns (omega arith)))))))))

-- On any bytes ParseAuthentication2 ends without a panic, in an error or in a descriptor whose
-- certificate data leave room for the 40 bytes of the time and the header.
pub parse_authentication2-Ensures :
    (b : Bytes) → Ensures (HasRoom (length b)) (parse_authentication2 b)
unfolding parse_authentication2
parse_authentication2-Ensures b = Ensures-guard (not (ltb (length b) 40)) _ (λ enough.
    let long : 40 ≤ length b = ground arith in
    Ensures-slice b 0 16 _ (omega arith) (omega arith) (λ time_bytes _.
      Ensures-bind (parse_efi_time-Ensures time_bytes) (λ ts _.
        rw (slice_from_ok b 16 (omega arith)) (
          let rest : length (drop 16 b) ≡ length b - 16 = length-drop 16 b in
          let whole : 16 + length (drop 16 b) ≡ length b = omega arith in
          subst (λ (n : ℕ). Ensures (HasRoom n) (parse_certificate ts (drop 16 b))) whole
            (parse_certificate-Ensures ts (drop 16 b) (omega arith))))))
