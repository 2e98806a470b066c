-- ===== src/Cmp/Packet.antt =====
-- libpconn/cmp.c and include/pconn/cmp.h: a CMP packet and its ten bytes.
use coldsync.Base.{ℕ, Option, some, List, [], drop}
use coldsync.Base.Maybe.{◌>>=◌}
use coldsync.Bytes.{get_ubyte, get_udword, put_ubyte, put_uword, put_udword}

-- `struct cmp_packet`
pub record CmpPacket : Type 0 where
  pub type : ℕ
  pub flags : ℕ
  pub ver_major : ℕ
  pub ver_minor : ℕ
  pub reserved : ℕ
  pub rate : ℕ

-- The packet is read from the buffer, however long the message was.
unfoldable pub parse_packet : List ℕ → Option CmpPacket
unfolding get_ubyte get_udword
parse_packet inbuf = do
  (type, rptr) ← get_ubyte inbuf
  (flags, rptr) ← get_ubyte rptr
  (ver_major, rptr) ← get_ubyte rptr
  (ver_minor, rptr) ← get_ubyte rptr
  (rate, rptr) ← get_udword (drop 2 rptr)
  some (record {
    type = type;
    flags = flags;
    ver_major = ver_major;
    ver_minor = ver_minor;
    reserved = 0;
    rate = rate;
  })

unfoldable pub build_packet : CmpPacket → List ℕ
build_packet packet =
    let wptr = put_ubyte [] packet.type in
    let wptr = put_ubyte wptr packet.flags in
    let wptr = put_ubyte wptr packet.ver_major in
    let wptr = put_ubyte wptr packet.ver_minor in
    let wptr = put_uword wptr 0 in put_udword wptr packet.rate
