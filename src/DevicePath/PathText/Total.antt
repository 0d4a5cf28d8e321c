-- ===== src/DevicePath/PathText/Total.antt =====
-- devicepath.go: the text form on any node list.
use uefi.Base.{
  ℕ, zero, suc, ◌+◌, ◌-◌, ◌<◌, ◌≤◌, ◌≡◌, refl, Bool, true, false, not, ◌&&◌, ◌||◌, List, [], ◌∷◌,
  Bytes, arith, ltb, leb, leb→le, ◌==◌, &&-eq-true, length, length-take, length-drop, drop,
}
use uefi.Base.{
  ◌%◌, guard, ◌>>◌, Result, Error, ok, slice, slice_ok, slice_from_ok, uint32, uint64, uint32_at,
  uint64_at, index, ◌>>=◌, if◌then◌else◌,
}
use uefi.Text.{decode_utf16le}
use uefi.DevicePath.{DevicePathNode, type_hardware, type_acpi, type_messaging, type_media}
use uefi.DevicePath.Views.{hard_drive, file_path, decoded, media_sub_hd, media_sub_file}
use uefi.DevicePath.PathText.{
  hw_sub_pci, acpi_sub_acpi, media_sub_cdrom, is_vendor, hardware_text, acpi_text, media_text,
  node_text, node_texts, device_path_text,
}

-- The run ends in a value that satisfies `P`.
pub data Gives {ℓ κ} {A : Type ℓ} (P : A → Type κ) : Result A → Type (ℓ ⊔ κ) where
  gives : {a : A} → P a → Gives P (ok a)

abbrev Total {ℓ} : {A : Type ℓ} → Result A → Type ℓ
Total r = Gives (λ _. Unit {0}) r

module _ {ℓ κ} {A : Type ℓ} {P : A → Type κ} where
  Gives-if :
      (b : Bool) {x y : Result A}
      → (b ≡ true → Gives P x)
      → (b ≡ false → Gives P y)
      → Gives P (if b then x else y)
  Gives-if true hx hy = hx refl
  Gives-if false hx hy = hy refl

  Gives-bind {ℓ' κ'} :
      {B : Type ℓ'} {Q : B → Type κ'} {r : Result A} {f : A → Result B}
      → Gives P r
      → ((a : A) → P a → Gives Q (f a))
      → Gives Q (r >>= f)
  Gives-bind (gives {a} h) k = k a h

index-Total : (b : Bytes) (i : ℕ) → i < length b → Total (index b i)
unfolding index
index-Total [] i h = absurd (omega arith)
index-Total (x ∷ xs) zero h = gives tt
index-Total (x ∷ xs) (suc i) h = index-Total xs i (omega arith)

slice-Gives :
    (b : Bytes) (lo hi : ℕ)
    → lo ≤ hi
    → hi ≤ length b
    → Gives (λ s. length s ≡ hi - lo) (slice b lo hi)
slice-Gives b lo hi h k =
    rw (slice_ok b lo hi h k) (gives (rw (length-take, length-drop) (omega arith)))

uint32-Total : (b : Bytes) → 4 ≤ length b → Total (uint32 b)
unfolding uint32
uint32-Total [] h = absurd (omega arith)
uint32-Total (a ∷ []) h = absurd (omega arith)
uint32-Total (a ∷ b ∷ []) h = absurd (omega arith)
uint32-Total (a ∷ b ∷ c ∷ []) h = absurd (omega arith)
uint32-Total (a ∷ b ∷ c ∷ d ∷ r) h = gives tt

uint64-Total : (b : Bytes) → 8 ≤ length b → Total (uint64 b)
unfolding uint64
uint64-Total [] h = absurd (omega arith)
uint64-Total (a ∷ []) h = absurd (omega arith)
uint64-Total (a ∷ b ∷ []) h = absurd (omega arith)
uint64-Total (a ∷ b ∷ c ∷ []) h = absurd (omega arith)
uint64-Total (a ∷ b ∷ c ∷ d ∷ []) h = absurd (omega arith)
uint64-Total (a ∷ b ∷ c ∷ d ∷ e ∷ []) h = absurd (omega arith)
uint64-Total (a ∷ b ∷ c ∷ d ∷ e ∷ f ∷ []) h = absurd (omega arith)
uint64-Total (a ∷ b ∷ c ∷ d ∷ e ∷ f ∷ g ∷ []) h = absurd (omega arith)
uint64-Total (a ∷ b ∷ c ∷ d ∷ e ∷ f ∷ g ∷ k ∷ r) h = gives tt

uint32_at-Total : (b : Bytes) (off : ℕ) → off + 4 ≤ length b → Total (uint32_at b off)
unfolding uint32_at
uint32_at-Total b off h =
    rw (slice_from_ok b off (omega arith))
      (uint32-Total (drop off b) (rw length-drop (omega arith)))

uint64_at-Total : (b : Bytes) (off : ℕ) → off + 8 ≤ length b → Total (uint64_at b off)
unfolding uint64_at
uint64_at-Total b off h =
    rw (slice_from_ok b off (omega arith))
      (uint64-Total (drop off b) (rw length-drop (omega arith)))

-- HardDrive gives a partition or none, and never fails.
hard_drive-Total : (n : DevicePathNode) → Total (hard_drive n)
unfolding hard_drive
hard_drive-Total n =
    Gives-if (not (n.node_type == type_media) || not (n.sub_type == media_sub_hd)) (λ _. gives tt)
      (λ _.
        Gives-if (ltb (length n.content) 38) (λ _. gives tt)
          (λ enough.
            let long : 38 ≤ length n.content = ltb_not (length n.content) 38 enough in
            Gives-bind (uint32_at-Total n.content 0 (omega arith)) (λ number _.
              Gives-bind (uint64_at-Total n.content 4 (omega arith)) (λ start _.
                Gives-bind (uint64_at-Total n.content 12 (omega arith)) (λ size _.
                  Gives-bind (slice-Gives n.content 20 36 (omega arith) (omega arith)) (λ sig _.
                    Gives-bind (index-Total n.content 36 (omega arith)) (λ mbr _.
                      Gives-bind (index-Total n.content 37 (omega arith)) (λ typ _. gives tt))))))))
  where
    ltb_not : (a b : ℕ) → ltb a b ≡ false → b ≤ a
    ltb_not a b h = ground arith

-- FilePath gives a path or none, and never fails.
file_path-Total : (n : DevicePathNode) → Total (file_path n)
unfolding file_path decode_utf16le
file_path-Total n =
    Gives-if (not (n.node_type == type_media) || not (n.sub_type == media_sub_file)) (λ _. gives tt)
      (λ _. decoded_guard _ _ (length n.content % 2 == 0))
  where
    decoded_guard : (e : Error) (s : Bytes) (b : Bool) → Total (decoded (guard b e >> ok s))
    decoded_guard e s true = gives tt
    decoded_guard e s false = gives tt

hardware_text-Total : (n : DevicePathNode) → Total (hardware_text n)
unfolding hardware_text
hardware_text-Total n =
    Gives-if (n.sub_type == hw_sub_pci && leb 2 (length n.content))
      (λ yes.
        let long : 2 ≤ length n.content = ground arith in
        Gives-bind (index-Total n.content 1 (omega arith))
          (λ device _. Gives-bind (index-Total n.content 0 (omega arith)) (λ function _. gives tt)))
      (λ _. gives tt)

acpi_text-Total : (n : DevicePathNode) → Total (acpi_text n)
unfolding acpi_text
acpi_text-Total n =
    Gives-if (n.sub_type == acpi_sub_acpi && leb 8 (length n.content))
      (λ yes.
        let long : 8 ≤ length n.content = ground arith in
        Gives-bind (word 0 4 refl (omega arith))
          (λ hid _. Gives-bind (word 4 8 refl (omega arith)) (λ uid _. gives tt)))
      (λ _. gives tt)
  where
    word :
        (lo hi : ℕ) → hi ≡ lo + 4 → hi ≤ length n.content → Total (slice n.content lo hi >>= uint32)
    word lo hi e h =
        Gives-bind (slice-Gives n.content lo hi (omega arith) h)
          (λ s size. uint32-Total s (omega arith))

media_text-Total : (n : DevicePathNode) → Total (media_text n)
unfolding media_text
media_text-Total n =
    Gives-if (n.sub_type == media_sub_hd) (λ _. Gives-bind (hard_drive-Total n) (λ hd _. gives tt))
      (λ _.
        Gives-if (n.sub_type == media_sub_file)
          (λ _. Gives-bind (file_path-Total n) (λ p _. gives tt))
          (λ _.
            Gives-if (n.sub_type == media_sub_cdrom) (λ _. gives tt)
              (λ _.
                Gives-if (is_vendor n.sub_type && leb 16 (length n.content))
                  (λ yes.
                    Gives-bind
                      (slice-Gives n.content 0 16 (omega arith)
                        (leb→le 16 (length n.content) (&&-eq-true _ _ yes).1))
                      (λ g _. gives tt))
                  (λ _. gives tt))))

node_text-Total : (n : DevicePathNode) → Total (node_text n)
unfolding node_text
node_text-Total n =
    Gives-bind {P = λ _. Unit {0}}
      (Gives-if (n.node_type == type_hardware) (λ _. hardware_text-Total n)
        (λ _.
          Gives-if (n.node_type == type_acpi) (λ _. acpi_text-Total n)
            (λ _.
              Gives-if (n.node_type == type_messaging) (λ _. gives tt)
                (λ _.
                  Gives-if (n.node_type == type_media) (λ _. media_text-Total n) (λ _. gives tt)))))
      (λ t _. gives tt)

-- Every node has a text, a part of its own.
pub node_texts-Gives :
    (ns : List DevicePathNode) → Gives (λ ts. length ts ≡ length ns) (node_texts ns)
unfolding node_texts
node_texts-Gives [] = gives refl
node_texts-Gives (n ∷ ns) =
    Gives-bind (node_text-Total n)
      (λ t _. Gives-bind (node_texts-Gives ns) (λ ts same. gives (omega arith)))

-- DevicePathText gives a text for every node list: it neither panics nor fails.
pub device_path_text-Total : (ns : List DevicePathNode) → (t : Bytes) × (device_path_text ns ≡ ok t)
unfolding device_path_text
device_path_text-Total ns =
    text_of (Gives-bind {Q = λ _. Unit {0}} (node_texts-Gives ns) (λ ts _. gives tt))
  where
    text_of : {r : Result Bytes} → Total r → (t : Bytes) × (r ≡ ok t)
    text_of (gives {a = t} _) = (t, refl)
