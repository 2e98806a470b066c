-- ===== src/Cmd/NetSync.antt =====
-- libpconn/dlp_cmd.c: the NetSync information of the Palm.
use coldsync.Base.{ℕ, Option, some, List, [], ◌++◌, take, drop}
use coldsync.Base.Maybe.{◌>>=◌}
use coldsync.Bytes.{get_ubyte, get_uword, get_udword, put_ubyte, put_uword, put_udword}
use coldsync.Conn.Monad.{M}
use coldsync.Dlp.{Transport}
use coldsync.Cmd.{Request, no_args, with_arg, on_arg, unknown_arg, call, call_only}
use coldsync.Cmd.Memory.{memcpy}
use coldsync.Cmd.Info.{at_most}

-- `struct dlp_netsyncinfo`: the arrays have 256, 128 and 128 bytes.
pub record NetSyncInfo : Type 0 where
  pub lansync_on : ℕ
  pub reserved1 : ℕ
  pub reserved1b : ℕ
  pub reserved2 : ℕ
  pub reserved3 : ℕ
  pub reserved4 : ℕ
  pub hostnamesize : ℕ
  pub hostaddrsize : ℕ
  pub hostnetmasksize : ℕ
  pub hostname : List ℕ
  pub hostaddr : List ℕ
  pub hostnetmask : List ℕ

unfoldable pub read_net_sync_info : Request
read_net_sync_info = no_args 0x36

unfoldable pub get_net_sync_info : List ℕ → NetSyncInfo → Option NetSyncInfo
unfolding memcpy at_most
get_net_sync_info rptr old = do
  (lansync_on, rptr) ← get_ubyte rptr
  (reserved1, rptr) ← get_ubyte rptr
  (reserved1b, rptr) ← get_udword rptr
  (reserved2, rptr) ← get_udword rptr
  (reserved3, rptr) ← get_udword rptr
  (reserved4, rptr) ← get_udword rptr
  (hostnamesize, rptr) ← get_uword rptr
  (hostaddrsize, rptr) ← get_uword rptr
  (hostnetmasksize, names) ← get_uword rptr
  hostname ← memcpy old.hostname names (at_most old.hostname hostnamesize)
  let addrs = drop hostnamesize names
  hostaddr ← memcpy old.hostaddr addrs (at_most old.hostaddr hostaddrsize)
  let masks = drop hostaddrsize addrs
  hostnetmask ← memcpy old.hostnetmask masks (at_most old.hostnetmask hostnetmasksize)
  some (record {
    lansync_on = lansync_on;
    reserved1 = reserved1;
    reserved1b = reserved1b;
    reserved2 = reserved2;
    reserved3 = reserved3;
    reserved4 = reserved4;
    hostnamesize = hostnamesize;
    hostaddrsize = hostaddrsize;
    hostnetmasksize = hostnetmasksize;
    hostname = hostname;
    hostaddr = hostaddr;
    hostnetmask = hostnetmask;
  })

-- The sizes are at most those of the arrays.
unfoldable pub net_sync_bytes : ℕ → NetSyncInfo → List ℕ
net_sync_bytes modflags newinfo =
    let wptr = put_ubyte (put_ubyte [] modflags) newinfo.lansync_on in
    let wptr = put_udword (put_udword (put_udword (put_udword wptr 0) 0) 0) 0 in
    let wptr = put_uword (put_uword wptr newinfo.hostnamesize) newinfo.hostaddrsize in
    put_uword wptr newinfo.hostnetmasksize
    ++ (take newinfo.hostnamesize newinfo.hostname
        ++ (take newinfo.hostaddrsize newinfo.hostaddr
            ++ take newinfo.hostnetmasksize newinfo.hostnetmask))

-- The buffer of 2048 bytes is allocated at the first call, which is taken to find the memory.
unfoldable pub write_net_sync_info : ℕ → NetSyncInfo → Request
write_net_sync_info modflags newinfo = with_arg 0x37 0x20 2048 (net_sync_bytes modflags newinfo)

module _ (transport : Transport) where
  unfoldable pub dlp_read_net_sync_info : NetSyncInfo → M (ℕ × NetSyncInfo)
  unfolding call read_net_sync_info on_arg unknown_arg get_net_sync_info
  dlp_read_net_sync_info =
      call transport read_net_sync_info (on_arg 0x20 get_net_sync_info unknown_arg)

  unfoldable pub dlp_write_net_sync_info : ℕ → NetSyncInfo → M (ℕ × Unit {0})
  unfolding call_only write_net_sync_info
  dlp_write_net_sync_info modflags newinfo =
      call_only transport (write_net_sync_info modflags newinfo)
