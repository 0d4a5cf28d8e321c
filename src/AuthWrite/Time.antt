-- ===== src/AuthWrite/Time.antt =====
-- authwrite.go: EFI_TIME in both directions.
use uefi.Base.{◌^◌, ◌<◌, ◌≤◌, ◌≡◌, refl, [], ◌∷◌, ◌++◌, Bytes, arith, length, ltb, not}
use uefi.Base.{
  ok, Ensures, returns, Ensures-bind, Ensures-guard, le16, le32, uint16-le16, uint32-le32,
  uint16_at, uint32_at, uint16_at-Ensures, uint32_at-Ensures, slice_from, index, index-Ensures,
}
use uefi.AuthWrite.{EfiTime, UtcTime, efi_time_from_go_time, marshal_efi_time, parse_efi_time}

-- The fields of more than a byte are within their types.
pub record IsEfiTime (e : EfiTime) : Type 0 where
  pub year_u16 : e.year < 2 ^ 16
  pub nanosecond_u32 : e.nanosecond < 2 ^ 32
  pub time_zone_u16 : e.time_zone < 2 ^ 16

pub length-marshal_efi_time : (e : EfiTime) → length (marshal_efi_time e) ≡ 16
unfolding marshal_efi_time
length-marshal_efi_time e = refl

-- parseEFITime gives back every time that Marshal was given.
pub parse_efi_time-marshal_efi_time :
    (e : EfiTime) → IsEfiTime e → parse_efi_time (marshal_efi_time e) ≡ ok e
unfolding parse_efi_time marshal_efi_time uint16_at uint32_at slice_from index
parse_efi_time-marshal_efi_time e h =
    let from_zone = le16 e.time_zone ++ e.daylight ∷ 0 ∷ [] in
    let from_month =
      e.month ∷ e.day ∷ e.hour ∷ e.minute ∷ e.second ∷ 0 ∷ (le32 e.nanosecond ++ from_zone) in
    rw (
      uint16-le16 e.year from_month h.year_u16,
      uint32-le32 e.nanosecond from_zone h.nanosecond_u32,
      uint16-le16 e.time_zone (e.daylight ∷ 0 ∷ []) h.time_zone_u16,
    )

-- The time that EFITimeFromGoTime makes is within its types, whatever the year.
pub efi_time_from_go_time-IsEfiTime : (t : UtcTime) → IsEfiTime (efi_time_from_go_time t)
efi_time_from_go_time-IsEfiTime t = record {
  year_u16 = omega arith;
  nanosecond_u32 = omega arith;
  time_zone_u16 = omega arith;
}

-- parseEFITime does not panic, whatever the bytes.
pub parse_efi_time-Ensures : (b : Bytes) → Ensures (λ _. Unit {0}) (parse_efi_time b)
unfolding parse_efi_time
parse_efi_time-Ensures b = Ensures-guard (not (ltb (length b) 16)) _ (λ enough.
    let long : 16 ≤ length b = ground arith in
    Ensures-bind (uint16_at-Ensures b 0 (omega arith)) (λ year _.
      Ensures-bind (index-Ensures b 2 (omega arith)) (λ month _.
        Ensures-bind (index-Ensures b 3 (omega arith)) (λ day _.
          Ensures-bind (index-Ensures b 4 (omega arith)) (λ hour _.
            Ensures-bind (index-Ensures b 5 (omega arith)) (λ minute _.
              Ensures-bind (index-Ensures b 6 (omega arith)) (λ second _.
                Ensures-bind (uint32_at-Ensures b 8 (omega arith)) (λ nano _.
                  Ensures-bind (uint16_at-Ensures b 12 (omega arith)) (λ zone _.
                    Ensures-bind (index-Ensures b 14 (omega arith))
                      (λ daylight _. returns tt))))))))))
