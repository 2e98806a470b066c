-- ===== src/Cmd/Applications.antt =====
-- libpconn/dlp_cmd.c: calls of an application, and the preferences of one.
use coldsync.Base.{ℕ, ◌+◌, ltb, if◌then◌else◌, Option, some, List, [], ◌++◌, length, take, drop}
use coldsync.Base.Maybe.{◌>>=◌}
use coldsync.Bytes.{get_uword, get_udword, put_ubyte, put_uword, put_udword}
use coldsync.Conn.Monad.{M}
use coldsync.Dlp.{Transport}
use coldsync.Cmd.{Request, with_arg, with_allocated, on_arg, unknown_arg, call, call_only}
use coldsync.Cmd.Memory.{memcpy}

-- `struct dlp_appcall`
pub record AppCall : Type 0 where
  pub creator : ℕ
  pub type : ℕ
  pub action : ℕ

-- `struct dlp_appresult`: `payload` is its array `data`, of 2048 bytes.
pub record AppResult : Type 0 where
  pub action : ℕ
  pub result : ℕ
  pub size : ℕ
  pub reserved1 : ℕ
  pub reserved2 : ℕ
  pub payload : List ℕ

-- Up to version 2, and from there on. The parameters are as long as `paramsize` says.
unfoldable pub call_application : ℕ → AppCall → List ℕ → Request
call_application version appcall param =
    if ltb version 0x02000000
    then with_allocated 0x28 0x20 (22 + length param) (
        put_uword (put_uword (put_udword [] appcall.creator) appcall.action) (length param)
        ++ param)
    else let wptr = put_udword (put_udword [] appcall.creator) appcall.type in
      let wptr = put_udword (put_uword wptr appcall.action) (length param) in
      with_allocated 0x28 0x21 (22 + length param) (put_udword (put_udword wptr 0) 0 ++ param)

unfoldable pub get_result_v1 : List ℕ → AppResult → Option AppResult
unfolding memcpy
get_result_v1 rptr old = do
  (action, rptr) ← get_uword rptr
  (result, rptr) ← get_uword rptr
  (size, rptr) ← get_uword rptr
  payload ← memcpy old.payload rptr size
  some (record old { action = action; result = result; size = size; payload = payload })

unfoldable pub get_result_v2 : List ℕ → AppResult → Option AppResult
unfolding memcpy
get_result_v2 rptr old = do
  (result, rptr) ← get_udword rptr
  (size, rptr) ← get_udword rptr
  (reserved1, rptr) ← get_udword rptr
  (reserved2, rptr) ← get_udword rptr
  payload ← memcpy old.payload rptr size
  some (record old {
    result = result;
    size = size;
    reserved1 = reserved1;
    reserved2 = reserved2;
    payload = payload;
  })

-- `struct dlp_apppref`
pub record AppPref : Type 0 where
  pub version : ℕ
  pub size : ℕ
  pub len : ℕ

unfoldable pub read_app_preference : ℕ → ℕ → ℕ → ℕ → Request
read_app_preference creator id len flags =
    let wptr = put_uword (put_uword (put_udword [] creator) id) len in
    with_arg 0x34 0x20 10 (put_ubyte (put_ubyte wptr flags) 0)

-- The data goes to an array of the caller.
unfoldable pub get_preference : ℕ → List ℕ → AppPref × List ℕ → Option (AppPref × List ℕ)
unfolding memcpy
get_preference len rptr (old, out) = do
  (version, rptr) ← get_uword rptr
  (size, rptr) ← get_uword rptr
  (pref_len, rptr) ← get_uword rptr
  out ← memcpy out rptr (if ltb len pref_len then len else pref_len)
  some (record { version = version; size = size; len = pref_len }, out)

-- The data is as long as `pref->size` says. It is copied to the start of the buffer, over the header
-- that has been written there; the buffer's last bytes are whatever the memory held, `fresh`.
unfoldable pub preference_bytes : ℕ → ℕ → ℕ → ℕ → List ℕ → List ℕ → List ℕ
preference_bytes creator id flags version payload fresh =
    let wptr = put_uword (put_udword [] creator) id in
    let wptr = put_uword (put_uword wptr version) (length payload) in
    let buffer = put_ubyte (put_ubyte wptr flags) 0 ++ take (length payload) fresh in
    payload ++ drop (length payload) buffer

unfoldable pub write_app_preference : ℕ → ℕ → ℕ → ℕ → List ℕ → List ℕ → Request
write_app_preference creator id flags version payload fresh =
    with_allocated 0x35 0x20 (12 + length payload)
      (preference_bytes creator id flags version payload fresh)

module _ (transport : Transport) where
  unfoldable pub dlp_call_application : ℕ → AppCall → List ℕ → AppResult → M (ℕ × AppResult)
  unfolding call call_application on_arg unknown_arg get_result_v1 get_result_v2
  dlp_call_application version appcall param =
      call transport (call_application version appcall param)
        (on_arg 0x20 get_result_v1 (on_arg 0x21 get_result_v2 unknown_arg))

  unfoldable pub dlp_read_app_preference :
      ℕ → ℕ → ℕ → ℕ → AppPref × List ℕ → M (ℕ × (AppPref × List ℕ))
  unfolding call read_app_preference on_arg unknown_arg get_preference
  dlp_read_app_preference creator id len flags =
      call transport (read_app_preference creator id len flags)
        (on_arg 0x20 (get_preference len) unknown_arg)

  unfoldable pub dlp_write_app_preference : ℕ → ℕ → ℕ → ℕ → List ℕ → List ℕ → M (ℕ × Unit {0})
  unfolding call_only write_app_preference
  dlp_write_app_preference creator id flags version payload fresh =
      call_only transport (write_app_preference creator id flags version payload fresh)
