-- ===== src/AuthWrite/Written.antt =====
-- authwrite.go: what WriteAuthenticatedVariable leaves in the store.
use uefi.Base.{ℕ, ◌<◌, ◌≡◌, refl, true, ◌++◌, Bytes, arith, length}
use uefi.Base.{ok}
use uefi.Variable.{Guid, Variable, u32_mod}
use uefi.VariableStore.{VariableStore, VariableStoreLaws, Differs}
use uefi.Pkcs7.{Crypto}
use uefi.AuthWrite.{
  EfiTime, AuthSigner, digest_tbs, sign_with, build_authentication2, parse_authentication2,
  write_attrs, or_time_based, has_time_based, write_authenticated_variable,
  efi_cert_type_pkcs7_guid,
}
use uefi.AuthWrite.Time.{IsEfiTime}
use uefi.AuthWrite.RoundTrip.{parse_authentication2-build_authentication2}

-- The attributes written have the flag of a time-based authenticated write.
write_attrs_time_based : (attrs : ℕ) → has_time_based (write_attrs attrs) ≡ true
unfolding write_attrs or_time_based
write_attrs_time_based attrs = ground arith

-- After a successful WriteAuthenticatedVariable, over any store that keeps the laws, with a time
-- within its types and a descriptor below 4 GiB, Get gives a variable with the flag of a
-- time-based authenticated write, whose data are that descriptor and then the data given;
-- ParseAuthentication2 reads the time from it and a signature that the signer made over the
-- attributes that the variable has; every other variable is as it was.
pub write_authenticated_variable_lem :
    {Key Serial S : Type 0} (crypto : Crypto Key Serial) (vs : VariableStore S)
    → VariableStoreLaws vs
    → (s : S) (name : Bytes) (guid : Guid) (attrs : ℕ) (content : Bytes) (ts : EfiTime)
      (signer : AuthSigner Key Serial) (desc : Bytes) (other : Bytes) (other_guid : Guid)
    → IsEfiTime ts
    → build_authentication2 crypto name guid (write_attrs attrs) content ts signer ≡ ok desc
    → length desc < u32_mod
    → (write_authenticated_variable crypto vs s name guid attrs content ts signer).1 ≡ ok tt
    → Differs name guid other other_guid
    → let s' = (write_authenticated_variable crypto vs s name guid attrs content ts signer).0 in
      (v : Variable) × (p7 : Bytes) × (vs.get s' name guid ≡ ok v)
      × (has_time_based v.attributes ≡ true)
      × (v.content ≡ desc ++ content)
      × (sign_with crypto signer v.attributes (digest_tbs name guid v.attributes ts content)
          ≡ ok p7)
      × (parse_authentication2 v.content
          ≡ ok (record { time_stamp = ts; cert_type = efi_cert_type_pkcs7_guid; pkcs7 = p7 }))
      × (vs.get s' other other_guid ≡ vs.get s other other_guid)
unfolding write_authenticated_variable
write_authenticated_variable_lem crypto vs laws s name guid attrs content ts signer desc other
      other_guid timely built small h differ =
    let v : Variable = record {
      name = name;
      guid = guid;
      attributes = write_attrs attrs;
      content = desc ++ content;
    } in
    let wrote : (vs.set s v).1 ≡ ok tt = rw built at h in
    let (p7, signed, parsed) =
      parse_authentication2-build_authentication2 crypto name guid (write_attrs attrs) content ts
        signer desc content timely built small in
    (
      v,
      p7,
      rw built (laws.get-set_self s v wrote),
      write_attrs_time_based attrs,
      refl,
      signed,
      parsed,
      rw built (laws.get-set_other s v other other_guid wrote differ),
    )
