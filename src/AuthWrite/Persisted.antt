-- ===== src/AuthWrite/Persisted.antt =====
-- authwrite.go: WriteAuthenticatedVariable in a store that is backed by a file.
use uefi.Base.{ℕ, ◌+◌, ◌<◌, ◌≤◌, ◌≡◌, refl, Bytes, ◌++◌, Option, some, arith, All, IsByte}
use uefi.Base.{ok, length}
use uefi.Safeio.{Safeio, SafeioLaws}
use uefi.Text.RoundTrip.{IsUtf8}
use uefi.Variable.{Guid, Variable, IsStorable, u32_mod}
use uefi.Store.{Store, Limits, resolve, open_limits, get, set}
use uefi.Store.Map.{store_operations, get-set_self}
use uefi.Store.Reopen.{calm}
use uefi.Store.Committed.{unchanged, then_set, open_limits-Commits}
use uefi.Pkcs7.{Crypto}
use uefi.AuthWrite.{
  EfiTime, AuthSigner, digest_tbs, sign_with, build_authentication2, parse_authentication2,
  write_attrs, or_time_based, write_authenticated_variable, efi_cert_type_pkcs7_guid,
}
use uefi.AuthWrite.Time.{IsEfiTime}
use uefi.AuthWrite.RoundTrip.{parse_authentication2-build_authentication2}

write_attrs_u32 : (attrs : ℕ) → attrs < u32_mod → write_attrs attrs < u32_mod
unfolding write_attrs or_time_based
write_attrs_u32 attrs h = ground arith

module _ (io : Safeio) (laws : SafeioLaws io) (path : Bytes) (lim : Limits)
    (files : Bytes → Option Bytes) (s : Store)
    (bytes : (file : Bytes) → files path ≡ some file → All IsByte file)
    (small : (resolve lim).max_file_size + 60 < u32_mod)
    (opens : (open_limits io path lim (calm files)).0 ≡ ok s) where
  -- After OpenLimits of a file of bytes, with a limit that leaves 60 below 2^32, and a successful
  -- WriteAuthenticatedVariable over a disk whose calls work, with a name of valid UTF-8, uint32
  -- attributes, a time within its types, a descriptor below 4 GiB and at most the limit of
  -- variables, Get in the store that OpenLimits finds in the file gives a variable whose data are
  -- that descriptor and then the data given, and ParseAuthentication2 reads the time from it and
  -- the signature that the signer made over the attributes that the variable has.
  pub write_authenticated_variable_reopens :
      {Key Serial : Type 0} (crypto : Crypto Key Serial) (name : Bytes) (guid : Guid) (attrs : ℕ)
      (content : Bytes) (ts : EfiTime) (signer : AuthSigner Key Serial) (desc : Bytes)
      → IsUtf8 name
      → attrs < u32_mod
      → IsEfiTime ts
      → build_authentication2 crypto name guid (write_attrs attrs) content ts signer ≡ ok desc
      → length desc < u32_mod
      → (write_authenticated_variable crypto store_operations
          (s, calm files)
          name
          guid
          attrs
          content
          ts
          signer).1
        ≡ ok tt
      → length
          (write_authenticated_variable crypto store_operations
            (s, calm files)
            name
            guid
            attrs
            content
            ts
            signer).0.0.vars
        ≤ (resolve lim).max_variables
      → let t =
          (write_authenticated_variable crypto store_operations
            (s, calm files)
            name
            guid
            attrs
            content
            ts
            signer).0 in
        (s' : Store) × (v : Variable) × (p7 : Bytes) × ((open_limits io path lim t.1).0 ≡ ok s')
        × (get (s', t.1) name guid ≡ ok v)
        × (v.content ≡ desc ++ content)
        × (sign_with crypto signer v.attributes (digest_tbs name guid v.attributes ts content)
            ≡ ok p7)
        × (parse_authentication2 v.content
            ≡ ok (record { time_stamp = ts; cert_type = efi_cert_type_pkcs7_guid; pkcs7 = p7 }))
  unfolding write_authenticated_variable
  write_authenticated_variable_reopens crypto name guid attrs content ts signer desc utf8 attrs_fit
        timely built short done count =
      let v : Variable = record {
        name = name;
        guid = guid;
        attributes = write_attrs attrs;
        content = desc ++ content;
      } in
      let wrote : (set (s, calm files) v).1 ≡ ok tt = rw built at done in
      let few : length (set (s, calm files) v).0.0.vars ≤ (resolve lim).max_variables =
        rw built at count in
      let (p7, signed, parsed) =
        parse_authentication2-build_authentication2 crypto name guid (write_attrs attrs) content ts
          signer desc content timely built short in
      let storable : IsStorable v = record {
        name_utf8 = utf8;
        attributes_u32 = write_attrs_u32 attrs attrs_fit;
      } in
      rw built (
        (set (s, calm files) v).0.0,
        v,
        p7,
        open_limits-Commits io laws path lim files s (set (s, calm files) v).0 bytes small opens
            (then_set unchanged v storable) few,
        get-set_self (s, calm files) v wrote,
        refl,
        signed,
        parsed,
      )
