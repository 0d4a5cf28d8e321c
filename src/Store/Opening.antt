-- ===== src/Store/Opening.antt =====
-- uefi.go: OpenLimits on any file.
use uefi.Base.{
  ℕ, ◌+◌, ◌<◌, ◌≤◌, ◌≡◌, refl, sym, subst, ap, ◌∙◌, Bool, true, false, not, Bytes, arith, All,
  IsByte, Option, some, none,
}
use uefi.Base.{
  leb, ltb, leb→le, ◌==◌, if◌then◌else◌, length, take, Ensures, returns, fails, Ensures-if,
  Ensures-bind_eq, Ensures-guard, Ensures-bind, Ensures-slice, Ensures-and, index-Ensures,
  uint32-Ensures, take_all, length-take, Ensures-map,
}
use uefi.Safeio.{Safeio, SafeioLaws}
use uefi.Variable.{
  u32_mod, Guid, guid_of, eq_guid, IsStorable, efi_variable_guid, efi_authenticated_variable_guid,
  efi_system_nv_data_fv_guid, fv_header_size, store_header_size, store_formatted, store_healthy,
}
use uefi.Walk.Total.{parse_variables-Ensures}
use uefi.Walk.Kept.{parse_variables-IsStorable}
use uefi.Disk.{max_int64, limited}
use uefi.Disk.{
  Disk, Fate, works, no_stat, refused, interrupted, next_fate, read_within, read_opened,
  read_store_file,
}
use uefi.Store.{
  Limits, Store, resolve, detect_fv_wrap, read_signature, read_store_header, read_layout,
  open_bytes, open_limits,
}
use uefi.Store.Prefix.{IsWithin, read_layout-IsWithin}
use uefi.Store.Flushed.{IsOpen}
use uefi.Store.Sound.{IsWhole, Sound, IsWhole-later}

detect_fv_wrap-Ensures : (buf : Bytes) → Ensures (λ _. Unit {0}) (detect_fv_wrap buf)
unfolding detect_fv_wrap
detect_fv_wrap-Ensures buf =
    Ensures-if (ltb (length buf) fv_header_size) (λ _. returns tt)
      (λ enough.
        let long : 72 ≤ length buf = ground arith in
        Ensures-slice buf 16 32 _ (omega arith) (omega arith) (λ raw _.
          Ensures-if (not (eq_guid (guid_of raw) efi_system_nv_data_fv_guid)) (λ _. returns tt)
            (λ _. Ensures-slice buf 40 44 _ (omega arith) (omega arith) (λ sig four.
              Ensures-bind (uint32-Ensures sig (omega arith)) (λ word _. returns tt)))))

read_signature-Ensures : (sig : Guid) → Ensures (λ _. Unit {0}) (read_signature sig)
unfolding read_signature
read_signature-Ensures sig =
    Ensures-if (eq_guid sig efi_authenticated_variable_guid) (λ _. returns tt)
      (λ _. Ensures-if (eq_guid sig efi_variable_guid) (λ _. returns tt) (λ _. fails))

read_store_header-Ensures :
    (buf : Bytes) (wrapped : Bool) → Ensures (λ _. Unit {0}) (read_store_header buf wrapped)
unfolding read_store_header
read_store_header-Ensures buf wrapped =
    let off = if wrapped then fv_header_size else 0 in
    Ensures-guard (leb (off + store_header_size) (length buf)) _ (λ h.
      let room : off + 28 ≤ length buf = leb→le _ _ h in
      Ensures-slice buf off (off + 16) _ (omega arith) (omega arith) (λ raw _.
        Ensures-bind (read_signature-Ensures (guid_of raw)) (λ auth _.
          Ensures-bind (index-Ensures buf (off + 20) (omega arith)) (λ format _.
            Ensures-guard (format == store_formatted) _ (λ _.
              Ensures-bind (index-Ensures buf (off + 21) (omega arith)) (λ state _.
                Ensures-guard (state == store_healthy) _ (λ _.
                  Ensures-slice buf (off + 16) (off + 20) _ (omega arith) (omega arith)
                    (λ word four.
                      Ensures-bind (uint32-Ensures word (omega arith))
                        (λ size _. returns tt)))))))))

pub read_layout-Ensures : (buf : Bytes) → Ensures (λ _. Unit {0}) (read_layout buf)
unfolding read_layout
read_layout-Ensures buf =
    Ensures-bind (detect_fv_wrap-Ensures buf) (λ wrapped _. read_store_header-Ensures buf wrapped)

-- A store that has just been opened from the file `buf`.
pub record IsFresh (path : Bytes) (lim : Limits) (buf : Bytes) (s : Store) : Type 0 where
  pub at : s.path ≡ path
  pub limits : s.lim ≡ lim
  pub belongs : IsOpen s buf
  pub storable : All IsStorable s.vars
  pub count : length s.vars ≤ lim.max_variables

pub open_bytes-Ensures :
    (io : Safeio)
    → SafeioLaws io
    → (path : Bytes) (lim : Limits) (buf : Bytes) → All IsByte buf
    → length buf ≤ lim.max_file_size
    → lim.max_file_size + 60 < u32_mod
    → Ensures (IsFresh path lim buf) (open_bytes io path lim buf)
unfolding open_bytes
open_bytes-Ensures io laws path lim buf bytes within small =
    Ensures-bind_eq (read_layout buf) (read_layout-Ensures buf) (λ lay laid _.
      let inside : IsWithin lay (length buf) = read_layout-IsWithin buf lay laid (omega arith) in
      Ensures-bind
        (Ensures-and
          (parse_variables-Ensures io laws buf lay.store_off lay.store_size lay.auth_vars
            lim.max_variables (omega arith) inside.header_in)
          (parse_variables-IsStorable io buf lay.store_off lay.store_size lay.auth_vars
            lim.max_variables bytes))
        (λ vars h. returns (record {
          at = refl;
          limits = refl;
          belongs = record {
            laid_out = laid;
            within_limit = within;
            limit_int64 = omega arith;
            room_in_u32 = omega arith;
          };
          storable = h.1;
          count = h.0.count;
        })))

-- A file that is read is read whole, and is within the limit.
read_within-Ensures :
    (sized : Bool) (max : ℕ) (content : Bytes)
    → max < max_int64
    → Ensures (λ got. (got ≡ content) × (length content ≤ max)) (read_within sized max content)
unfolding read_within limited
read_within-Ensures sized max content small =
    let in_range : leb max_int64 max ≡ false = ground arith in
    rw in_range (
      Ensures-if (if sized then ltb max (length content) else false) (λ _. fails)
        (λ _.
          Ensures-if (ltb max (length (take (max + 1) content))) (λ _. fails)
            (λ short.
              let cut : length (take (max + 1) content) ≤ max = ltb_not _ _ short in
              let whole : length content ≤ max = omega (arith, length-take (max + 1) content) in
              returns (take_all (max + 1) content (omega arith), whole))))
  where
    ltb_not : (a b : ℕ) → ltb a b ≡ false → b ≤ a
    ltb_not a b h = ground arith

-- What readStoreFile reads, where no call stops halfway.
read_opened-Ensures :
    (f : Fate) (max : ℕ) (file : Option Bytes)
    → max < max_int64
    → Ensures (λ got. (file ≡ some got) × (length got ≤ max)) (read_opened f max file)
unfolding read_opened
read_opened-Ensures refused max file small = fails
read_opened-Ensures (interrupted n) max file small = fails
read_opened-Ensures works max none small = fails
read_opened-Ensures no_stat max none small = fails
read_opened-Ensures works max (some content) small =
    Ensures-map (read_within-Ensures true max content small)
      (λ got h. (ap some (sym h.0), subst (λ (b : Bytes). length b ≤ max) (sym h.0) h.1))
read_opened-Ensures no_stat max (some content) small =
    Ensures-map (read_within-Ensures false max content small)
      (λ got h. (ap some (sym h.0), subst (λ (b : Bytes). length b ≤ max) (sym h.0) h.1))

-- On any file of bytes, with a limit that leaves 60 below 2^32, over a disk on which calls can
-- fail but do not stop halfway, OpenLimits ends without a panic and within its fuel, in an error
-- or in a sound session that has the path, the limits, and at most the limit of variables.
pub open_limits-Ensures :
    (io : Safeio)
    → SafeioLaws io
    → (path : Bytes) (limits : Limits) (d : Disk)
    → ((file : Bytes) → d.files path ≡ some file → All IsByte file)
    → All IsWhole d.fates
    → (resolve limits).max_file_size + 60 < u32_mod
    → Ensures
        (λ s.
          Sound s (s, (open_limits io path limits d).1)
          × (s.path ≡ path)
          × (s.lim ≡ resolve limits)
          × (length s.vars ≤ s.lim.max_variables))
        (open_limits io path limits d).0
unfolding open_limits read_store_file
open_limits-Ensures io laws path limits d bytes whole small =
    let lim = resolve limits in
    Ensures-bind
      (read_opened-Ensures (next_fate d.fates) lim.max_file_size (d.files path) (omega arith))
      (λ file (there, within).
        Ensures-map (open_bytes-Ensures io laws path lim file (bytes file there) within small)
          (λ s h. (
            record {
              same_store = refl;
              storable = h.storable;
              whole = IsWhole-later d.fates whole;
              file = file;
              there = ap d.files h.at ∙ there;
              belongs = h.belongs;
            },
            h.at,
            h.limits,
            subst (λ (l : Limits). length s.vars ≤ l.max_variables) (sym h.limits) h.count,
          )))
