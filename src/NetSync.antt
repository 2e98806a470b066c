-- ===== src/NetSync.antt =====
-- libpconn/netsync.c: messages behind a header of six bytes, and the exchange that opens a connection.
pub mod Ritual
pub mod Reading
pub mod Writing
pub mod Carries
pub mod AtOnce
pub mod Silent
use coldsync.Base.{
  ℕ, zero, suc, ◌+◌, ◌-◌, ◌%◌, ◌^◌, ◌==◌, ltb, not, ◌&&◌, if◌then◌else◌, Bool, true, false,
}
use coldsync.Base.{Option, none, some, List, [], ◌∷◌, ◌++◌, length}
use coldsync.Base.Maybe
use coldsync.Bytes.{uword_many, get_ubyte, get_udword, put_ubyte, put_udword}
use coldsync.Conn.{PConnection, system, timeout2}
use coldsync.Conn.Monad.{
  M, ◌>>=◌, ◌>>◌, pure, fail, faulty, no_fuel, gets, modify, in_bounds, set_palmerrno,
}
use coldsync.Conn.Calls.{pconn_timedselect, pconn_read, pconn_write, write_all, allocate}
use coldsync.Slp
use coldsync.Dlp.{Transport}

abbrev pub netsync_hdr_len : ℕ
netsync_hdr_len = 6

-- `struct netsync_header`
pub record NetsyncHeader : Type 0 where
  pub cmd : ℕ
  pub xid : ℕ
  pub len : ℕ

-- A byte, never 0.
unfoldable pub bump_net_xid : ℕ → ℕ
bump_net_xid xid = let next = (xid + 1) % 2 ^ 8 in if next == 0 then 1 else next

-- PConn_select for reading. After a timeout the connection counts as lost, and the error number is
-- the one of PConn_timedselect, which is set here.
unfoldable pub wait_readable : M (Unit {0})
wait_readable = do
  ready ← pconn_timedselect
  if ready then pure tt else do set_palmerrno timeout2; fail

unfoldable pub get_header : List ℕ → Option (NetsyncHeader × List ℕ)
get_header rptr = Maybe.◌>>=◌ (get_ubyte rptr) (λ (cmd, rptr).
    Maybe.◌>>=◌ (get_ubyte rptr) (λ (xid, rptr).
      Maybe.◌>>=◌ (get_udword rptr)
        (λ (len, rptr). some (record { cmd = cmd; xid = xid; len = len }, rptr))))

-- The header comes in by one read; less than six bytes of it is an error.
unfoldable pub read_header : M (List ℕ)
read_header = do
  hdr_buf ← pconn_read netsync_hdr_len
  if length hdr_buf == netsync_hdr_len then pure hdr_buf else do set_palmerrno system; fail

-- `while (want > got)`: each round gets a byte at least.
unfoldable pub read_wanted : ℕ → ℕ → List ℕ → M (List ℕ)
unfolding wait_readable
read_wanted fuel zero got = pure got
read_wanted zero (suc missing) got = no_fuel
read_wanted (suc fuel) (suc missing) got = do
  wait_readable
  bytes ← pconn_read (suc missing)
  read_wanted fuel (suc missing - length bytes) (got ++ bytes)

-- The body that a header announces. Memory that is not found is written to all the same.
unfoldable pub framed_body : Bool → NetsyncHeader → M (List ℕ)
unfolding read_wanted
framed_body found hdr =
    if not found && not (hdr.len == 0) then faulty else read_wanted hdr.len hdr.len []

-- A first packet of a known length may come without a header, so that what was read as one belongs to
-- it.
unfoldable pub first_body : ℕ → Bool → List ℕ → NetsyncHeader → M (List ℕ)
unfolding framed_body
first_body len found hdr_buf hdr =
    if hdr.cmd == 0x90 && (hdr.xid == 0x01 && hdr.len == 0)
    then (if not found
        then faulty
        else read_wanted (len - netsync_hdr_len) (len - netsync_hdr_len) hdr_buf)
    else framed_body found hdr

-- The length goes out as a word.
unfoldable pub netsync_body : Option ℕ → List ℕ → NetsyncHeader → M Slp.Packet
unfolding first_body framed_body
netsync_body first hdr_buf hdr = do
  found ← allocate
  body ← by_kind first found
  pure (record { buf = body; len = length body % 2 ^ 16 })
  where
    by_kind : Option ℕ → Bool → M (List ℕ)
    by_kind none found = framed_body found hdr
    by_kind (some len) found = first_body len found hdr_buf hdr

-- A connection that was made from this side takes over the number of the packet.
unfoldable pub heed : Option ℕ → List ℕ → NetsyncHeader → M Slp.Packet
unfolding netsync_body
heed first hdr_buf hdr = do
  ours ← gets (λ c. c.whosonfirst)
  modify (λ c. record c { net = record c.net { xid = if ours then hdr.xid else c.net.xid } })
  netsync_body first hdr_buf hdr

unfoldable pub netsync_read_method : Option ℕ → M Slp.Packet
unfolding wait_readable read_header get_header heed
netsync_read_method first = do
  wait_readable
  hdr_buf ← read_header
  (hdr, rest) ← in_bounds (get_header hdr_buf)
  heed first hdr_buf hdr

unfoldable pub netsync_read : M Slp.Packet
unfolding netsync_read_method
netsync_read = netsync_read_method none

unfoldable pub netsync_header_of : ℕ → ℕ → List ℕ
netsync_header_of xid len = put_udword (put_ubyte (put_ubyte [] 1) xid) len

-- The length is a uword. How much of the header has gone out is not looked at.
unfoldable pub netsync_write : List ℕ → M (Unit {0})
unfolding bump_net_xid netsync_header_of
netsync_write message = do
  let buf = uword_many message
  ours ← gets (λ c. c.whosonfirst)
  modify (λ c. record c {
    net = record c.net { xid = if ours then c.net.xid else bump_net_xid c.net.xid };
  })
  xid ← gets (λ c. c.net.xid)
  sent ← pconn_write (netsync_header_of xid (length buf))
  write_all buf

-- The other version, with header and data in one piece of memory.
unfoldable pub netsync_write_new : List ℕ → M (Unit {0})
unfolding bump_net_xid netsync_header_of
netsync_write_new message = do
  let buf = uword_many message
  found ← allocate
  if not found then fail else do
    ours ← gets (λ c. c.whosonfirst)
    modify (λ c. record c {
      net = record c.net { xid = if ours then c.net.xid else bump_net_xid c.net.xid };
    })
    xid ← gets (λ c. c.net.xid)
    write_all (netsync_header_of xid (length buf) ++ buf)

-- What netsync_init makes the functions of DLP.
abbrev pub netsync_transport : Transport
netsync_transport = record { read = netsync_read; write = netsync_write }
