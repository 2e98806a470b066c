-- ===== src/Cmd/Databases.antt =====
-- libpconn/dlp_cmd.c: the list of databases, and the requests that open, make, close and delete one.
use coldsync.Base.{ℕ, zero, suc, ◌+◌, ◌==◌, if◌then◌else◌, Bool}
use coldsync.Base.{Option, some, List, [], ◌∷◌, ◌++◌, drop}
use coldsync.Base.Maybe.{◌>>=◌}
use coldsync.Bytes.{get_ubyte, get_uword, get_udword, put_ubyte, put_uword, put_udword}
use coldsync.Conn.Monad.{M}
use coldsync.Dlp.{Transport}
use coldsync.Cmd.{Request, with_arg, on_arg, unknown_arg, call, call_only}
use coldsync.Cmd.Memory.{DlpTime, dlpcmd_gettime, strncpy, put_name}

-- `struct dlp_dbinfo`
pub record DbInfo : Type 0 where
  pub size : ℕ
  pub misc_flags : ℕ
  pub db_flags : ℕ
  pub type : ℕ
  pub creator : ℕ
  pub version : ℕ
  pub modnum : ℕ
  pub ctime : DlpTime
  pub mtime : DlpTime
  pub baktime : DlpTime
  pub index : ℕ
  pub name : List ℕ

-- The pointer moves on by 44 bytes, and then by `size` - 44: to `size` bytes from the start, whether
-- that is more or less.
unfoldable pub parse_dbinfo : List ℕ → Option (DbInfo × List ℕ)
unfolding dlpcmd_gettime strncpy
parse_dbinfo buffer = do
  (size, rptr) ← get_ubyte buffer
  (misc_flags, rptr) ← get_ubyte rptr
  (db_flags, rptr) ← get_uword rptr
  (type, rptr) ← get_udword rptr
  (creator, rptr) ← get_udword rptr
  (version, rptr) ← get_uword rptr
  (modnum, rptr) ← get_udword rptr
  (ctime, rptr) ← dlpcmd_gettime rptr
  (mtime, rptr) ← dlpcmd_gettime rptr
  (baktime, rptr) ← dlpcmd_gettime rptr
  (index, rptr) ← get_uword rptr
  name ← strncpy 31 rptr
  some (
    record {
      size = size;
      misc_flags = misc_flags;
      db_flags = db_flags;
      type = type;
      creator = creator;
      version = version;
      modnum = modnum;
      ctime = ctime;
      mtime = mtime;
      baktime = baktime;
      index = index;
      name = name ++ (0 ∷ []);
    },
    drop size buffer,
  )

unfoldable pub read_db_list : ℕ → ℕ → ℕ → Request
read_db_list iflags card start =
    with_arg 0x16 0x20 4 (put_uword (put_ubyte (put_ubyte [] iflags) card) start)

-- What goes out of a call: `dbs` are the entries of the caller's array that have been written. How
-- many it has room for is not modelled.
pub record DbList : Type 0 where
  pub last_index : ℕ
  pub oflags : ℕ
  pub num : ℕ
  pub dbs : List DbInfo

unfoldable pub parse_dbs : ℕ → List ℕ → List DbInfo → Option (List DbInfo)
unfolding parse_dbinfo
parse_dbs zero rptr dbs = some dbs
parse_dbs (suc num) rptr dbs = do
  (db, rptr) ← parse_dbinfo rptr
  parse_dbs num rptr (dbs ++ (db ∷ []))

unfoldable pub get_db_list : List ℕ → DbList → Option DbList
unfolding parse_dbs
get_db_list rptr old = do
  (last_index, rptr) ← get_uword rptr
  (oflags, rptr) ← get_ubyte rptr
  (num, rptr) ← get_ubyte rptr
  dbs ← parse_dbs num rptr old.dbs
  some (record { last_index = last_index; oflags = oflags; num = num; dbs = dbs })

unfoldable pub open_db : ℕ → List ℕ → ℕ → Request
open_db card name mode =
    with_arg 0x17 0x20 (2 + 32) (put_name (put_ubyte (put_ubyte [] card) mode) name)

unfoldable pub get_handle : List ℕ → ℕ → Option ℕ
get_handle rptr old = do (handle, rptr) ← get_ubyte rptr; some handle

-- `struct dlp_createdbreq`
pub record CreateDbReq : Type 0 where
  pub creator : ℕ
  pub type : ℕ
  pub card : ℕ
  pub flags : ℕ
  pub version : ℕ
  pub name : List ℕ

unfoldable pub create_db : CreateDbReq → Request
create_db newdb =
    let wptr = put_udword (put_udword [] newdb.creator) newdb.type in
    let wptr = put_ubyte (put_ubyte wptr newdb.card) 0 in
    let wptr = put_uword (put_uword wptr newdb.flags) newdb.version in
    with_arg 0x18 0x20 (14 + 32) (put_name wptr newdb.name)

-- All databases, one, or one whose times are to be updated. The handle is a byte.
unfoldable pub close_db : ℕ → ℕ → Request
close_db handle flags =
    if handle == 0xff
    then with_arg 0x19 0x21 0 []
    else if flags == 0
    then with_arg 0x19 0x20 1 (put_ubyte [] handle)
    else with_arg 0x19 0x22 2 (put_ubyte (put_ubyte [] handle) flags)

unfoldable pub delete_db : ℕ → List ℕ → Request
delete_db card name = with_arg 0x1a 0x20 (2 + 32) (put_name (put_ubyte (put_ubyte [] card) 0) name)

unfoldable pub read_open_db_info : ℕ → Request
read_open_db_info handle = with_arg 0x2b 0x20 1 (put_ubyte [] handle)

unfoldable pub get_numrecs : List ℕ → ℕ → Option ℕ
get_numrecs rptr old = do (numrecs, rptr) ← get_uword rptr; some numrecs

unfoldable pub find_db_by_type_creator : ℕ → ℕ → Bool → Request
find_db_by_type_creator creator type newsearch =
    let wptr = put_ubyte (put_ubyte [] 0x80) (if newsearch then 0x80 else 0) in
    with_arg 0x39 0x22 10 (put_udword (put_udword wptr type) creator)

-- `struct dlp_finddb`
pub record FindDb : Type 0 where
  pub cardno : ℕ
  pub localid : ℕ
  pub openref : ℕ
  pub dbinfo : DbInfo

unfoldable pub get_found : List ℕ → FindDb → Option FindDb
unfolding parse_dbinfo
get_found rptr old = do
  (cardno, rptr) ← get_ubyte rptr
  (padding, rptr) ← get_ubyte rptr
  (localid, rptr) ← get_udword rptr
  (openref, rptr) ← get_udword rptr
  (dbinfo, rptr) ← parse_dbinfo rptr
  some (record { cardno = cardno; localid = localid; openref = openref; dbinfo = dbinfo })

module _ (transport : Transport) where
  unfoldable pub dlp_read_db_list : ℕ → ℕ → ℕ → DbList → M (ℕ × DbList)
  unfolding call read_db_list on_arg unknown_arg get_db_list
  dlp_read_db_list iflags card start =
      call transport (read_db_list iflags card start) (on_arg 0x20 get_db_list unknown_arg)

  unfoldable pub dlp_open_db : ℕ → List ℕ → ℕ → ℕ → M (ℕ × ℕ)
  unfolding call open_db on_arg unknown_arg get_handle
  dlp_open_db card name mode =
      call transport (open_db card name mode) (on_arg 0x20 get_handle unknown_arg)

  unfoldable pub dlp_create_db : CreateDbReq → ℕ → M (ℕ × ℕ)
  unfolding call create_db on_arg unknown_arg get_handle
  dlp_create_db newdb = call transport (create_db newdb) (on_arg 0x20 get_handle unknown_arg)

  unfoldable pub dlp_close_db : ℕ → ℕ → M (ℕ × Unit {0})
  unfolding call_only close_db
  dlp_close_db handle flags = call_only transport (close_db handle flags)

  unfoldable pub dlp_delete_db : ℕ → List ℕ → M (ℕ × Unit {0})
  unfolding call_only delete_db
  dlp_delete_db card name = call_only transport (delete_db card name)

  unfoldable pub dlp_read_open_db_info : ℕ → ℕ → M (ℕ × ℕ)
  unfolding call read_open_db_info on_arg unknown_arg get_numrecs
  dlp_read_open_db_info handle =
      call transport (read_open_db_info handle) (on_arg 0x20 get_numrecs unknown_arg)

  unfoldable pub dlp_find_db_by_type_creator : ℕ → ℕ → Bool → FindDb → M (ℕ × FindDb)
  unfolding call find_db_by_type_creator on_arg unknown_arg get_found
  dlp_find_db_by_type_creator creator type newsearch =
      call transport (find_db_by_type_creator creator type newsearch)
        (on_arg 0x20 get_found unknown_arg)
