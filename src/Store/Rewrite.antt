-- ===== src/Store/Rewrite.antt =====
-- What buildStore and flush write: the headers, the variables, erased flash, and the rest of the
-- file as it was.
use uefi.Base.{
  ℕ, zero, suc, ◌+◌, ◌-◌, ◌<◌, ◌≤◌, ◌≡◌, refl, sym, ap, ◌∙◌, [], ◌∷◌, ◌++◌, Bytes, arith,
  append_assoc,
}
use uefi.Base.{
  ok, err, le→leb, lt→leb, length, length-append, length-take, length-drop, length-replicate, take,
  drop, replicate, drop-add, drop-replicate, take-append_le, take_all, drop-append, copy_at,
  copy_at-append, copy_at_front, store_full,
}
use uefi.Variable.{store_header_size}
use uefi.Store.{erase, build_store}

-- Erasing a run of zero bytes.
pub erase-replicate : (k : ℕ) → erase 0 k (replicate k 0) ≡ replicate k 0xff
unfolding erase
erase-replicate zero = refl
erase-replicate (suc k) = ap (λ t. 0xff ∷ t) (erase-replicate k)

erase_lem :
    (lo n : ℕ) (b : Bytes)
    → lo + n ≤ length b
    → erase lo n b ≡ take lo b ++ (replicate n 0xff ++ drop n (drop lo b))
unfolding erase
erase_lem zero zero [] h = refl
erase_lem zero (suc n) [] h = absurd (omega arith)
erase_lem (suc lo) n [] h = absurd (omega arith)
erase_lem zero zero (b ∷ bs) h = refl
erase_lem zero (suc n) (b ∷ bs) h = ap (λ t. 0xff ∷ t) (erase_lem zero n bs (omega arith))
erase_lem (suc lo) n (b ∷ bs) h = ap (λ t. b ∷ t) (erase_lem lo n bs (omega arith))

-- The file that buildStore makes of `orig`.
abbrev pub rebuilt : Bytes → ℕ → ℕ → Bytes → Bytes
rebuilt orig store_off store_size payload =
    let room = store_size - store_header_size in
    take (store_off + store_header_size) orig
    ++ (payload
        ++ (replicate (room - length payload) 0xff
            ++ drop room (drop (store_off + store_header_size) orig)))

copy_payload :
    (h payload t : Bytes) (n : ℕ)
    → length payload ≤ n
    → copy_at (h ++ (replicate n 0xff ++ t)) (length h) payload
      ≡ h ++ (payload ++ (replicate (n - length payload) 0xff ++ t))
copy_payload h payload t n fits =
    copy_at-append h (replicate n 0xff ++ t) payload
    ∙ ap (λ x. h ++ x)
        (copy_at_front (replicate n 0xff ++ t) payload
            (omega (arith, length-append (replicate n 0xff) t, length-replicate {A = ℕ} n 0xff))
          ∙ ap (λ x. payload ++ x) (drop-replicate (length payload) n 0xff t fits))

module _ (orig : Bytes) (store_off store_size : ℕ) (payload : Bytes) where
  -- Where the variables fit.
  pub build_store_ok :
      store_off + store_size ≤ length orig
      → store_header_size + length payload ≤ store_size
      → build_store orig store_off store_size payload
        ≡ ok (rebuilt orig store_off store_size payload)
  unfolding build_store
  build_store_ok inside fits =
      let header_end = store_off + store_header_size in
      let room : store_off + store_size - header_end ≡ store_size - store_header_size =
        omega arith in
      let front : header_end ≡ length (take header_end orig) =
        omega (arith, length-take header_end orig) in
      rw
        (
          le→leb (store_off + store_size) (length orig) inside,
          le→leb (header_end + length payload) (store_off + store_size) (omega arith),
          room,
          erase_lem header_end (store_size - store_header_size) orig (omega arith),
        )
        (ap ok (
          ap
            (λ (n : ℕ).
              copy_at
                (take header_end orig
                  ++ (replicate (store_size - store_header_size) 0xff
                      ++ drop (store_size - store_header_size) (drop header_end orig)))
                n payload)
            front
          ∙ copy_payload (take header_end orig) payload _ (store_size - store_header_size)
              (omega arith)))

  -- Where they do not, the result is an error, and there is nothing to write.
  pub build_store_full :
      store_off + store_size ≤ length orig
      → store_size < store_header_size + length payload
      → build_store orig store_off store_size payload ≡ err store_full
  unfolding build_store
  build_store_full inside over = rw (
    le→leb (store_off + store_size) (length orig) inside,
    lt→leb (store_off + store_header_size + length payload) (store_off + store_size) (omega arith),
  )

  -- The file keeps its length.
  pub length-rebuilt :
      store_off + store_size ≤ length orig
      → store_header_size + length payload ≤ store_size
      → length (rebuilt orig store_off store_size payload) ≡ length orig
  length-rebuilt inside fits =
      simp (length-append, length-take, length-drop, length-replicate) (omega arith)

  -- buildStore, where the payload fits in a store that lies in the file, keeps the length of the
  -- file, everything up to the end of the store header, and everything behind the store.
  pub build_store_keeps :
      store_off + store_size ≤ length orig
      → store_header_size + length payload ≤ store_size
      → (buf : Bytes) × (build_store orig store_off store_size payload ≡ ok buf)
        × (length buf ≡ length orig)
        × (take (store_off + store_header_size) buf ≡ take (store_off + store_header_size) orig)
        × (drop (store_off + store_size) buf ≡ drop (store_off + store_size) orig)
  build_store_keeps inside fits = (
    rebuilt orig store_off store_size payload,
    build_store_ok inside fits,
    length-rebuilt inside fits,
    headers,
    behind,
  )
    where
      header_end : ℕ
      header_end = store_off + store_header_size

      room : ℕ
      room = store_size - store_header_size

      front : Bytes
      front = take header_end orig

      tail : Bytes
      tail = drop room (drop header_end orig)

      front_size : header_end ≡ length front
      front_size = omega (arith, length-take header_end orig)

      headers : take header_end (rebuilt orig store_off store_size payload) ≡ front
      headers =
          take-append_le header_end front _ (omega (arith, front_size))
          ∙ take_all header_end front (omega (arith, front_size))

      filled : Bytes
      filled = payload ++ replicate (room - length payload) 0xff

      filled_end : store_off + store_size ≡ length (front ++ filled)
      filled_end = omega (
        arith,
        length-append front filled,
        length-append payload (replicate (room - length payload) 0xff),
        length-replicate {A = ℕ} (room - length payload) 0xff,
        front_size,
      )

      behind :
          drop (store_off + store_size) (rebuilt orig store_off store_size payload)
          ≡ drop (store_off + store_size) orig
      behind =
          let regroup : rebuilt orig store_off store_size payload ≡ (front ++ filled) ++ tail =
            simp append_assoc in
          let split : store_off + store_size ≡ header_end + room = omega arith in
          ap (drop (store_off + store_size)) regroup
          ∙ ap (λ (n : ℕ). drop n ((front ++ filled) ++ tail)) filled_end
          ∙ drop-append (front ++ filled) tail
          ∙ sym (drop-add header_end room orig)
          ∙ ap (λ (n : ℕ). drop n orig) (sym split)
