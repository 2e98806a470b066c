-- ===== src/Cmd/Memory.antt =====
-- What libpconn/dlp_cmd.c does with arrays and C strings, and `struct dlp_time`.
use coldsync.Base.{ℕ, zero, suc, ◌==◌, ltb, leb, ◌&&◌, if◌then◌else◌}
use coldsync.Base.{Option, none, some, List, [], ◌∷◌, ◌++◌, length, take, drop, replicate}
use coldsync.Base.Maybe.{◌>>=◌}
use coldsync.Bytes.{get_ubyte, get_uword, put_ubyte, put_uword}

-- `memcpy(dest, rptr, n)`; `none` where it leaves either of them.
unfoldable pub memcpy : List ℕ → List ℕ → ℕ → Option (List ℕ)
memcpy dest src n =
    if leb n (length src) && leb n (length dest) then some (take n src ++ drop n dest) else none

-- `dest[n] = b`
unfoldable pub store : List ℕ → ℕ → ℕ → Option (List ℕ)
store dest n b = if ltb n (length dest) then some (take n dest ++ (b ∷ drop (suc n) dest)) else none

-- `strncpy` into the first `n` bytes: up to the NUL, and zeros from there on.
unfoldable pub strncpy : ℕ → List ℕ → Option (List ℕ)
strncpy zero src = some []
strncpy (suc n) [] = none
strncpy (suc n) (b ∷ src) =
    let rest = strncpy n src in
    if b == 0 then some (replicate (suc n) 0) else (rest >>= λ (bytes : List ℕ). some (b ∷ bytes))

-- The name of a database, as the argument of a request: 31 bytes at most, and a NUL. The string is
-- the list of its bytes before the NUL.
unfoldable pub put_name : List ℕ → List ℕ → List ℕ
put_name wptr name =
    let max = if ltb 31 (length name) then 31 else length name in
    put_ubyte (wptr ++ take max name) 0

-- `struct dlp_time`
pub record DlpTime : Type 0 where
  pub year : ℕ
  pub month : ℕ
  pub day : ℕ
  pub hour : ℕ
  pub minute : ℕ
  pub second : ℕ

unfoldable pub dlpcmd_gettime : List ℕ → Option (DlpTime × List ℕ)
dlpcmd_gettime rptr = do
  (year, rptr) ← get_uword rptr
  (month, rptr) ← get_ubyte rptr
  (day, rptr) ← get_ubyte rptr
  (hour, rptr) ← get_ubyte rptr
  (minute, rptr) ← get_ubyte rptr
  (second, rptr) ← get_ubyte rptr
  (unused, rptr) ← get_ubyte rptr
  some (
    record { year = year; month = month; day = day; hour = hour; minute = minute; second = second },
    rptr,
  )

unfoldable pub dlpcmd_puttime : List ℕ → DlpTime → List ℕ
dlpcmd_puttime wptr t =
    let wptr = put_ubyte (put_ubyte (put_uword wptr t.year) t.month) t.day in
    put_ubyte (put_ubyte (put_ubyte (put_ubyte wptr t.hour) t.minute) t.second) 0
