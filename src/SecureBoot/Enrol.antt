-- ===== src/SecureBoot/Enrol.antt =====
-- secureboot.go: enrolling the Secure Boot keys, over any store that keeps the laws of VariableStore.
use uefi.Base.{◌≡◌, refl, ap, ◌∙◌, List, [], ◌∷◌, Bytes, eq_bytes}
use uefi.Base.{Result, ok, err, panic, out_of_fuel}
use uefi.Variable.{Variable, Guid}
use uefi.VariableStore.{VariableStore, VariableStoreLaws, and_then, Differs}
use uefi.SecureBoot.{
  efi_global_variable_guid, efi_image_security_database_guid, SecureBootKeys, Entry, entries,
  key_variable, build_efi_signature_list, db_entry, kek_entry, pk_entry, enroll_one, enroll_all,
  enroll_secure_boot_keys, db_name, kek_name, pk_name,
}

-- One step of the loop that ended well.
and_then-step :
    {S : Type 0} (m : S × Result (Unit {0})) (f : S → Unit {0} → S × Result (Unit {0}))
    → (and_then m f).1 ≡ ok tt
    → (m.1 ≡ ok tt) × (and_then m f ≡ f m.0 tt)
and_then-step (s, ok _) f h = (refl, refl)
and_then-step (s, err e) f h = cc
and_then-step (s, panic) f h = cc
and_then-step (s, out_of_fuel) f h = cc

-- enrolOne that ended well wrote the list that BuildEFISignatureList made.
enroll_one-set :
    {S : Type 0} (vs : VariableStore S) (s : S) (e : Entry)
    → (enroll_one vs s e).1 ≡ ok tt
    → (sl : Bytes) × (build_efi_signature_list efi_global_variable_guid e.cert ≡ ok sl)
      × (enroll_one vs s e ≡ vs.set s (key_variable e sl))
      × ((vs.set s (key_variable e sl)).1 ≡ ok tt)
enroll_one-set vs s e h = go (build_efi_signature_list efi_global_variable_guid e.cert) h
  where
    go :
        (r : Result Bytes)
        → (and_then (s, r) (λ s' sl. vs.set s' (key_variable e sl))).1 ≡ ok tt
        → (sl : Bytes) × (r ≡ ok sl)
          × (and_then (s, r) (λ s' sl'. vs.set s' (key_variable e sl'))
              ≡ vs.set s (key_variable e sl))
          × ((vs.set s (key_variable e sl)).1 ≡ ok tt)
    go (ok sl) h = (sl, refl, refl, h)
    go (err x) h = cc
    go panic h = cc
    go out_of_fuel h = cc

module _ {S : Type 0} (vs : VariableStore S) (laws : VariableStoreLaws vs) where
  enroll_all-step :
      (s : S) (e : Entry) (es : List Entry)
      → (enroll_all vs s (e ∷ es)).1 ≡ ok tt
      → ((enroll_one vs s e).1 ≡ ok tt)
        × (enroll_all vs s (e ∷ es) ≡ enroll_all vs (enroll_one vs s e).0 es)
  unfolding enroll_all
  enroll_all-step s e es h = and_then-step (enroll_one vs s e) _ h

  -- The names of the entries left keep the variable of a step.
  kept :
      (s : S) (v : Variable) (name : Bytes) (guid : Guid) {r : Result Variable}
      → (vs.set s v).1 ≡ ok tt
      → Differs v.name v.guid name guid
      → vs.get s name guid ≡ r
      → vs.get (vs.set s v).0 name guid ≡ r
  kept s v name guid h d e = laws.get-set_other s v name guid h d ∙ e

  -- After a successful EnrollSecureBootKeys, over any store that keeps the laws, db, KEK and PK
  -- are there in their namespaces, each with the list that BuildEFISignatureList makes of its
  -- certificate, and a variable that is none of the three is as it was.
  pub enroll_secure_boot_keys_lem :
      (s : S) (keys : SecureBootKeys) (name : Bytes) (guid : Guid)
      → (enroll_secure_boot_keys vs s keys).1 ≡ ok tt
      → Differs db_name efi_image_security_database_guid name guid
      → Differs kek_name efi_global_variable_guid name guid
      → Differs pk_name efi_global_variable_guid name guid
      → let s' = (enroll_secure_boot_keys vs s keys).0 in
        (a : Bytes) × (b : Bytes) × (c : Bytes) × (build_efi_signature_list efi_global_variable_guid
            keys.db
          ≡ ok a)
        × (build_efi_signature_list efi_global_variable_guid keys.kek ≡ ok b)
        × (build_efi_signature_list efi_global_variable_guid keys.pk ≡ ok c)
        × (vs.get s' db_name efi_image_security_database_guid ≡ ok (key_variable (db_entry keys) a))
        × (vs.get s' kek_name efi_global_variable_guid ≡ ok (key_variable (kek_entry keys) b))
        × (vs.get s' pk_name efi_global_variable_guid ≡ ok (key_variable (pk_entry keys) c))
        × (vs.get s' name guid ≡ vs.get s name guid)
  unfolding enroll_secure_boot_keys
  enroll_secure_boot_keys_lem s keys name guid h not_db not_kek not_pk =
      let db = db_entry keys in
      let kek = kek_entry keys in
      let pk = pk_entry keys in
      let (done1, run1) = enroll_all-step s db (kek ∷ pk ∷ []) h in
      let (a, made1, set1, ok1) = enroll_one-set vs s db done1 in
      let s1 = (vs.set s (key_variable db a)).0 in
      let step1 : enroll_all vs s (entries keys) ≡ enroll_all vs s1 (kek ∷ pk ∷ []) =
        run1 ∙ ap (λ m. enroll_all vs m.0 (kek ∷ pk ∷ [])) set1 in
      let (done2, run2) = enroll_all-step s1 kek (pk ∷ []) (rw step1 at h) in
      let (b, made2, set2, ok2) = enroll_one-set vs s1 kek done2 in
      let s2 = (vs.set s1 (key_variable kek b)).0 in
      let step2 : enroll_all vs s1 (kek ∷ pk ∷ []) ≡ enroll_all vs s2 (pk ∷ []) =
        run2 ∙ ap (λ m. enroll_all vs m.0 (pk ∷ [])) set2 in
      let (done3, run3) = enroll_all-step s2 pk [] (rw step2 at (rw step1 at h)) in
      let (c, made3, set3, ok3) = enroll_one-set vs s2 pk done3 in
      let s3 = (vs.set s2 (key_variable pk c)).0 in
      let final : (enroll_all vs s (entries keys)).0 ≡ s3 =
        ap (λ r. r.0) (step1 ∙ step2 ∙ run3 ∙ unfold enroll_all in refl) ∙ ap (λ m. m.0) set3 in
      (
        a,
        b,
        c,
        made1,
        made2,
        made3,
        rw final (
            kept s2 (key_variable pk c) db_name efi_image_security_database_guid ok3
              (unfold eq_bytes in refl)
              (kept s1 (key_variable kek b) db_name efi_image_security_database_guid ok2
                (unfold eq_bytes in refl) (laws.get-set_self s (key_variable db a) ok1))),
        rw final (
            kept s2 (key_variable pk c) kek_name efi_global_variable_guid ok3
              (unfold eq_bytes in refl) (laws.get-set_self s1 (key_variable kek b) ok2)),
        rw final (laws.get-set_self s2 (key_variable pk c) ok3),
        rw final (
            kept s2 (key_variable pk c) name guid ok3 not_pk (
              kept s1 (key_variable kek b) name guid ok2 not_kek
                (kept s (key_variable db a) name guid ok1 not_db refl))),
      )
