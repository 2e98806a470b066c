-- ===== src/Cmd/Info.antt =====
-- libpconn/dlp_cmd.c: the user's information, and that of the system.
use coldsync.Base.{
  ℕ, ◌+◌, ltb, if◌then◌else◌, Option, some, List, [], ◌∷◌, ◌++◌, length, take, drop,
}
use coldsync.Base.Maybe.{◌>>=◌}
use coldsync.Bytes.{get_ubyte, get_uword, get_udword, put_ubyte, put_udword}
use coldsync.Conn.Monad.{M}
use coldsync.Dlp.{Transport}
use coldsync.Cmd.{Request, no_args, with_arg, on_arg, unknown_arg, call, call_clearing, call_only}
use coldsync.Cmd.Memory.{DlpTime, dlpcmd_gettime, dlpcmd_puttime, memcpy}

-- `struct dlp_userinfo`: the arrays have 41 and 256 bytes.
pub record UserInfo : Type 0 where
  pub userid : ℕ
  pub viewerid : ℕ
  pub lastsync_pc : ℕ
  pub lastgoodsync : DlpTime
  pub lastsync : DlpTime
  pub usernamelen : ℕ
  pub passwdlen : ℕ
  pub username : List ℕ
  pub passwd : List ℕ

-- The smaller of an array's length and the length that came in.
unfoldable pub at_most : List ℕ → ℕ → ℕ
at_most array len = if ltb len (length array) then len else length array

unfoldable pub get_user_info : List ℕ → UserInfo → Option UserInfo
unfolding at_most memcpy dlpcmd_gettime
get_user_info rptr old = do
  (userid, rptr) ← get_udword rptr
  (viewerid, rptr) ← get_udword rptr
  (lastsync_pc, rptr) ← get_udword rptr
  (lastgoodsync, rptr) ← dlpcmd_gettime rptr
  (lastsync, rptr) ← dlpcmd_gettime rptr
  (usernamelen, rptr) ← get_ubyte rptr
  (passwdlen, rptr) ← get_ubyte rptr
  username ← memcpy old.username rptr (at_most old.username usernamelen)
  passwd ← memcpy old.passwd (drop usernamelen rptr) (at_most old.passwd passwdlen)
  some (record {
    userid = userid;
    viewerid = viewerid;
    lastsync_pc = lastsync_pc;
    lastgoodsync = lastgoodsync;
    lastsync = lastsync;
    usernamelen = usernamelen;
    passwdlen = passwdlen;
    username = username;
    passwd = passwd;
  })

unfoldable pub read_user_info : Request
read_user_info = no_args 0x10

-- `struct dlp_setuserinfo`: `username` has the bytes that the pointer reaches, `usernamelen` of them
-- at least.
pub record SetUserInfo : Type 0 where
  pub userid : ℕ
  pub viewerid : ℕ
  pub lastsync_pc : ℕ
  pub lastsync : DlpTime
  pub modflags : ℕ
  pub usernamelen : ℕ
  pub username : List ℕ

-- At most 41 bytes of the name go out.
unfoldable pub user_info_bytes : SetUserInfo → List ℕ
unfolding dlpcmd_puttime
user_info_bytes userinfo =
    let wptr = put_udword (put_udword [] userinfo.userid) userinfo.viewerid in
    let wptr = dlpcmd_puttime (put_udword wptr userinfo.lastsync_pc) userinfo.lastsync in
    let max = if ltb userinfo.usernamelen 41 then userinfo.usernamelen else 41 in
    put_ubyte (put_ubyte wptr userinfo.modflags) userinfo.usernamelen ++ take max userinfo.username

unfoldable pub write_user_info : SetUserInfo → Request
write_user_info userinfo = with_arg 0x11 0x20 (22 + 41) (user_info_bytes userinfo)

-- `struct dlp_sysinfo`
pub record SysInfo : Type 0 where
  pub rom_version : ℕ
  pub localization : ℕ
  pub prod_id_size : ℕ
  pub prod_id : ℕ
  pub dlp_ver_maj : ℕ
  pub dlp_ver_min : ℕ
  pub comp_ver_maj : ℕ
  pub comp_ver_min : ℕ
  pub max_rec_size : ℕ

unfoldable pub get_sys_info : List ℕ → SysInfo → Option SysInfo
get_sys_info rptr sysinfo = do
  (rom_version, rptr) ← get_udword rptr
  (localization, rptr) ← get_udword rptr
  (padding, rptr) ← get_ubyte rptr
  (prod_id_size, rptr) ← get_ubyte rptr
  (prod_id, rptr) ← get_udword rptr
  some (record sysinfo {
    rom_version = rom_version;
    localization = localization;
    prod_id_size = prod_id_size;
    prod_id = prod_id;
  })

unfoldable pub get_versions : List ℕ → SysInfo → Option SysInfo
get_versions rptr sysinfo = do
  (dlp_ver_maj, rptr) ← get_uword rptr
  (dlp_ver_min, rptr) ← get_uword rptr
  (comp_ver_maj, rptr) ← get_uword rptr
  (comp_ver_min, rptr) ← get_uword rptr
  (max_rec_size, rptr) ← get_udword rptr
  some (record sysinfo {
    dlp_ver_maj = dlp_ver_maj;
    dlp_ver_min = dlp_ver_min;
    comp_ver_maj = comp_ver_maj;
    comp_ver_min = comp_ver_min;
    max_rec_size = max_rec_size;
  })

-- The version that this side speaks: 1.3.
unfoldable pub read_sys_info : Request
read_sys_info = with_arg 0x12 0x20 4 (0x00 ∷ 0x01 ∷ 0x00 ∷ 0x03 ∷ [])

-- What an older Palm does not send.
unfoldable pub clear_versions : SysInfo → SysInfo
clear_versions sysinfo = record sysinfo {
  dlp_ver_maj = 0;
  dlp_ver_min = 0;
  comp_ver_maj = 0;
  comp_ver_min = 0;
  max_rec_size = 0;
}

unfoldable pub get_sys_date_time : Request
get_sys_date_time = no_args 0x13

unfoldable pub get_time : List ℕ → DlpTime → Option DlpTime
unfolding dlpcmd_gettime
get_time rptr old = do (t, rptr) ← dlpcmd_gettime rptr; some t

unfoldable pub set_sys_date_time : DlpTime → Request
unfolding dlpcmd_puttime
set_sys_date_time ptime = with_arg 0x14 0x20 8 (dlpcmd_puttime [] ptime)

module _ (transport : Transport) where
  unfoldable pub dlp_read_user_info : UserInfo → M (ℕ × UserInfo)
  unfolding call read_user_info on_arg unknown_arg get_user_info
  dlp_read_user_info = call transport read_user_info (on_arg 0x20 get_user_info unknown_arg)

  unfoldable pub dlp_write_user_info : SetUserInfo → M (ℕ × Unit {0})
  unfolding call_only write_user_info
  dlp_write_user_info userinfo = call_only transport (write_user_info userinfo)

  unfoldable pub dlp_read_sys_info : SysInfo → M (ℕ × SysInfo)
  unfolding call_clearing read_sys_info clear_versions on_arg unknown_arg get_sys_info get_versions
  dlp_read_sys_info =
      call_clearing transport read_sys_info clear_versions
        (on_arg 0x20 get_sys_info (on_arg 0x21 get_versions unknown_arg))

  unfoldable pub dlp_get_sys_date_time : DlpTime → M (ℕ × DlpTime)
  unfolding call get_sys_date_time on_arg unknown_arg get_time
  dlp_get_sys_date_time = call transport get_sys_date_time (on_arg 0x20 get_time unknown_arg)

  unfoldable pub dlp_set_sys_date_time : DlpTime → M (ℕ × Unit {0})
  unfolding call_only set_sys_date_time
  dlp_set_sys_date_time ptime = call_only transport (set_sys_date_time ptime)
