-- ===== src/Store/Opened.antt =====
-- uefi.go, OpenLimits: the stores that it returns, and their files.
use uefi.Base.{◌+◌, ◌<◌, ◌≤◌, ◌≡◌, subst, Bytes}
use uefi.Base.{ok, >>=-eq-ok, length}
use uefi.Safeio.{Safeio}
use uefi.Variable.{u32_mod}
use uefi.Walk.{parse_variables}
use uefi.Disk.{max_int64}
use uefi.Store.{Limits, Store, read_layout, open_bytes}
use uefi.Store.Flushed.{IsOpen}

-- A store that OpenLimits makes of a file within the limit, which is below the greatest int64, and with 60 bytes of room below 2^32
-- belongs to that file.
pub open_bytes-IsOpen :
    (io : Safeio) (path : Bytes) (lim : Limits) (buf : Bytes) (s : Store)
    → open_bytes io path lim buf ≡ ok s
    → length buf ≤ lim.max_file_size
    → lim.max_file_size < max_int64
    → length buf + 60 < u32_mod
    → IsOpen s buf
unfolding open_bytes
open_bytes-IsOpen io path lim buf s e within int64 room =
    let (lay, laid, e1) = >>=-eq-ok (read_layout buf) _ e in
    let (vars, parsed, e2) =
      >>=-eq-ok
        (parse_variables io buf lay.store_off lay.store_size lay.auth_vars lim.max_variables) _
        e1 in
    let made : Store = record { path = path; lim = lim; vars = vars; layout = lay } in
    let same : made ≡ s = cc in
    subst (λ (t : Store). IsOpen t buf) same
      (record { laid_out = laid; within_limit = within; limit_int64 = int64; room_in_u32 = room })
