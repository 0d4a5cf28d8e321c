-- ===== src/Examples/Writes.antt =====
-- The theorems on authenticated writes, at a signer whose signatures are a byte.
use uefi.Base.{◌≤◌, length}
use uefi.Safeio.{plain_safeio, plain_safeio-laws}
use uefi.Store.{Store, resolve, open_limits}
use uefi.SecureBoot.Provisioned.{db_name-IsUtf8}
use uefi.AuthWrite.Persisted.{write_authenticated_variable_reopens}
use uefi.Examples.{path, files, store}
use uefi.Examples.Sessions.{no_limits, files-bytes, image-opens}
use uefi.Base.{arith, ◌≡◌, ◌<◌, refl, some, ok, Bytes, [], ◌∷◌, ◌++◌, length, Ensures, true}
use uefi.Base.{copy_at, eq_bytes}
use uefi.Text.{encode_utf16le, put_units}
use uefi.Text.Utf8.{runes, runes_from, decode_rune}
use uefi.Text.Utf16.{utf16_encode}
use uefi.Variable.{Variable, efi_variable_guid, u32_mod}
use uefi.Record.{encode_variable, encode_header, align_up, pad_bytes}
use uefi.Walk.{serialize_vars}
use uefi.Disk.{read_store_file, read_within, write_file, write_as}
use uefi.Store.{
  Session, commit, rewrite, build_store, erase, get, find_var, others, set, flush, list,
}
use uefi.Store.Map.{store_operations, store_operations-laws}
use uefi.Format.{make_empty_store}
use uefi.Pkcs7.{Crypto, sign_pkcs7_detached}
use uefi.SecureBoot.{efi_image_security_database_guid, db_name}
use uefi.AuthWrite.{
  UtcTime, EfiTime, AuthSigner, efi_time_from_go_time, build_authentication2, sign_with, descriptor,
  digest_tbs, write_attrs, or_time_based, has_time_based, marshal_efi_time, parse_authentication2,
  write_authenticated_variable, efi_cert_type_pkcs7_guid,
}
use uefi.AuthWrite.Time.{efi_time_from_go_time-IsEfiTime}
use uefi.AuthWrite.Total.{HasRoom, parse_authentication2-Ensures}
use uefi.AuthWrite.Signed.{Signs, build_authentication2_parses}
use uefi.AuthWrite.Written.{write_authenticated_variable_lem}
use uefi.Examples.{session}

-- A key is a byte, and a signature is the key.
abbrev crypto : Crypto (Unit {0}) (Unit {0})
crypto = record {
  sha256 = λ bs. bs;
  sign_pkcs1v15 = λ key bs. some (7 ∷ []);
  marshal_signed_data = λ sd. some (8 ∷ []);
  marshal_outer = λ outer. some (9 ∷ 9 ∷ []);
}

abbrev signer : AuthSigner (Unit {0}) (Unit {0})
signer = record {
  key = some tt;
  cert = some (record { raw = []; raw_issuer = []; serial_number = tt });
}

abbrev noon : UtcTime
noon = record { year = 2024; month = 5; day = 17; hour = 12; minute = 0; second = 0 }

abbrev time : EfiTime
time = efi_time_from_go_time noon

abbrev desc : Bytes
desc = descriptor time (9 ∷ 9 ∷ [])

built :
    build_authentication2 crypto db_name efi_image_security_database_guid
      (write_attrs 0)
      (1 ∷ [])
      time
      signer
    ≡ ok desc
unfolding build_authentication2 sign_with sign_pkcs7_detached write_attrs or_time_based
built = refl

desc-short : length desc < u32_mod
unfolding descriptor marshal_efi_time copy_at
desc-short = omega arith

signer-Signs :
    Signs crypto signer
      (digest_tbs db_name efi_image_security_database_guid (write_attrs 0) time (1 ∷ []))
      (9 ∷ 9 ∷ [])
signer-Signs = record {
  key = tt;
  cert = record { raw = []; raw_issuer = []; serial_number = tt };
  sig = 7 ∷ [];
  sd_der = 8 ∷ [];
  has_key = refl;
  has_cert = refl;
  signs = refl;
  encodes = refl;
  wraps = refl;
}

flagged : has_time_based (write_attrs 0) ≡ true
unfolding write_attrs or_time_based
flagged = refl

build_authentication2_parses_example :
    (d : Bytes) × (build_authentication2 crypto db_name efi_image_security_database_guid
        (write_attrs 0)
        (1 ∷ [])
        time
        signer
      ≡ ok d)
    × (parse_authentication2 (d ++ 1 ∷ [])
        ≡ ok (record {
          time_stamp = time;
          cert_type = efi_cert_type_pkcs7_guid;
          pkcs7 = 9 ∷ 9 ∷ [];
        }))
build_authentication2_parses_example =
    build_authentication2_parses crypto db_name efi_image_security_database_guid (write_attrs 0)
      (1 ∷ []) time signer (9 ∷ 9 ∷ []) (1 ∷ []) flagged signer-Signs
      (efi_time_from_go_time-IsEfiTime noon) (omega arith)

parse_authentication2-Ensures_example : Ensures (HasRoom 3) (parse_authentication2 (1 ∷ 2 ∷ 3 ∷ []))
parse_authentication2-Ensures_example = parse_authentication2-Ensures (1 ∷ 2 ∷ 3 ∷ [])

abbrev written : Session
written =
    (write_authenticated_variable crypto store_operations session db_name
      efi_image_security_database_guid 0 (1 ∷ []) time signer).0

write_works :
    (write_authenticated_variable crypto store_operations session db_name
      efi_image_security_database_guid 0
      (1 ∷ [])
      time
      signer).1
    ≡ ok tt
unfolding write_authenticated_variable build_authentication2 sign_with sign_pkcs7_detached
    write_attrs or_time_based descriptor marshal_efi_time copy_at eq_bytes put_units encode_utf16le
    runes runes_from decode_rune utf16_encode encode_variable encode_header align_up pad_bytes
    serialize_vars read_store_file read_within write_file write_as commit rewrite build_store erase
    get find_var others set flush list make_empty_store
write_works = refl

write_authenticated_variable_lem_example :
    (v : Variable) × (p7 : Bytes) × (get written db_name efi_image_security_database_guid ≡ ok v)
    × (has_time_based v.attributes ≡ true)
    × (v.content ≡ desc ++ 1 ∷ [])
    × (sign_with crypto signer v.attributes
          (digest_tbs db_name efi_image_security_database_guid v.attributes time (1 ∷ []))
        ≡ ok p7)
    × (parse_authentication2 v.content
        ≡ ok (record { time_stamp = time; cert_type = efi_cert_type_pkcs7_guid; pkcs7 = p7 }))
    × (get written (b'd' ∷ []) efi_variable_guid ≡ get session (b'd' ∷ []) efi_variable_guid)
unfolding eq_bytes
write_authenticated_variable_lem_example =
    write_authenticated_variable_lem crypto store_operations store_operations-laws session db_name
      efi_image_security_database_guid 0 (1 ∷ []) time signer desc (b'd' ∷ []) efi_variable_guid
      (efi_time_from_go_time-IsEfiTime noon) built desc-short write_works refl

written-few : length written.0.vars ≤ (resolve no_limits).max_variables
unfolding resolve write_authenticated_variable build_authentication2 sign_with sign_pkcs7_detached
    write_attrs or_time_based descriptor marshal_efi_time copy_at eq_bytes put_units encode_utf16le
    runes runes_from decode_rune utf16_encode encode_variable encode_header align_up pad_bytes
    serialize_vars read_store_file read_within write_file write_as commit rewrite build_store erase
    get find_var others set flush list make_empty_store
written-few = omega arith

write_authenticated_variable_reopens_example :
    (s' : Store) × (v : Variable) × (p7 : Bytes) × ((open_limits plain_safeio path no_limits
        written.1).0
      ≡ ok s')
    × (get (s', written.1) db_name efi_image_security_database_guid ≡ ok v)
    × (v.content ≡ desc ++ 1 ∷ [])
    × (sign_with crypto signer v.attributes
          (digest_tbs db_name efi_image_security_database_guid v.attributes time (1 ∷ []))
        ≡ ok p7)
    × (parse_authentication2 v.content
        ≡ ok (record { time_stamp = time; cert_type = efi_cert_type_pkcs7_guid; pkcs7 = p7 }))
write_authenticated_variable_reopens_example =
    write_authenticated_variable_reopens plain_safeio plain_safeio-laws path no_limits files store
      files-bytes (unfold resolve in omega arith) image-opens crypto db_name
      efi_image_security_database_guid 0 (1 ∷ []) time signer desc db_name-IsUtf8 (omega arith)
      (efi_time_from_go_time-IsEfiTime noon) built desc-short write_works written-few
