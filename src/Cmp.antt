-- ===== src/Cmp.antt =====
-- libpconn/cmp.c: the Connection Management Protocol, the handshake that opens a connection.
pub mod Packet
pub mod Laws
use coldsync.Base.{
  ℕ, zero, suc, ◌==◌, not, Bool, true, false, if◌then◌else◌, Option, none, some, List, length,
}
use coldsync.Conn.{PConnection, Result, ok, err, eof, fault, stuck, PalmErrno, noerr, timeout}
use coldsync.Conn.Monad.{M, ◌>>=◌, ◌>>◌, pure, fail, no_fuel, gets, in_bounds, set_palmerrno}
use coldsync.Padp.Read.{padp_read}
use coldsync.Padp.Write.{padp_write}
use Packet.{CmpPacket, parse_packet, build_packet}

abbrev cmp_type_wakeup : ℕ
cmp_type_wakeup = 1

abbrev cmp_type_init : ℕ
cmp_type_init = 2

abbrev cmp_iflag_changerate : ℕ
cmp_iflag_changerate = 0x80

unfoldable pub cmp_read : M CmpPacket
cmp_read = do set_palmerrno noerr; inbuf ← padp_read; in_bounds (parse_packet inbuf.buf)

unfoldable pub cmp_write : CmpPacket → M (Unit {0})
cmp_write packet = do set_palmerrno noerr; padp_write (build_packet packet)

is_timeout : PalmErrno → Bool
is_timeout timeout = true
is_timeout _ = false

-- The loops look at a negative result of `cmp_read`, and at the error number, themselves. A timeout
-- goes to the loop's test, which looks at the packet as it was.
read_or_keep : CmpPacket → M CmpPacket
unfolding is_timeout
read_or_keep cmpp c =
    let (r, c') = cmp_read c in
    elim r [
      | ok packet ↦ (ok packet, c')
      | err ↦ (if is_timeout c'.palm_errno then ok cmpp else err, c')
      | eof ↦ (eof, c')
      | fault ↦ (fault, c')
      | stuck ↦ (stuck, c')
    ]

-- The loop of `cmp_accept`; `cmpp` is what the packet held before, at first whatever was on the stack.
await_wakeup : ℕ → CmpPacket → M CmpPacket
unfolding read_or_keep
await_wakeup zero cmpp = no_fuel
await_wakeup (suc fuel) cmpp = do
  packet ← read_or_keep cmpp
  if packet.type == cmp_type_wakeup then pure packet else await_wakeup fuel packet

accept_reply : ℕ → CmpPacket → CmpPacket
accept_reply bps cmpp = record cmpp {
  type = cmp_type_init;
  ver_major = 1;
  ver_minor = 1;
  rate = (if bps == 0 then cmpp.rate else bps);
  flags = cmp_iflag_changerate;
}

-- The speed; `err` is the ~0 of an error.
unfoldable pub cmp_accept : ℕ → CmpPacket → ℕ → M ℕ
unfolding await_wakeup accept_reply
cmp_accept fuel cmpp bps = do
  wakeup ← await_wakeup fuel cmpp
  cmp_write (accept_reply bps wakeup)
  pure (accept_reply bps wakeup).rate

wakeup_message : ℕ → CmpPacket → CmpPacket
wakeup_message bps cmpp = record cmpp {
  type = cmp_type_wakeup;
  ver_major = 1;
  ver_minor = 1;
  flags = 0;
  rate = (if bps == 0 then 57600 else bps);
}

unfoldable pub cmp_wakeup : ℕ → CmpPacket → ℕ → M ℕ
unfolding read_or_keep wakeup_message
cmp_wakeup zero cmpp bps = no_fuel
cmp_wakeup (suc fuel) cmpp bps = do
  cmp_write (wakeup_message bps cmpp)
  packet ← read_or_keep (wakeup_message bps cmpp)
  if packet.type == cmp_type_init then pure packet.rate else cmp_wakeup fuel packet bps
