-- ===== src/Slp.antt =====
-- libpconn/slp.c: the Serial Link Protocol, packets with a preamble, a checked header, a body and a
-- CRC. A bad packet is dropped, and the reader starts again (`goto redo`).
pub mod Header
pub mod Valid
pub mod Accept
pub mod RoundTrip
pub mod Writing
use coldsync.Base.{
  ℕ, zero, suc, ◌+◌, ◌-◌, ◌%◌, ◌^◌, ◌==◌, ltb, if◌then◌else◌, Bool, true, false, not, ◌&&◌,
}
use coldsync.Base.{Option, none, some, List, [], ◌∷◌, ◌++◌, length, take, replicate, get_or}
use coldsync.Bytes.{put_ubyte, put_uword}
use coldsync.Crc.{crc16}
use coldsync.Conn.{PConnection, SlpAddr, Slp, ok, stuck, noerr, nomem}
use coldsync.Conn.Monad.{
  M, ◌>>=◌, ◌>>◌, pure, fail, gets, modify, no_fuel, in_bounds, set_palmerrno,
}
use Header.{SlpHeader, parse_header, sum_bytes, put_header}
use coldsync.Conn.Calls.{pconn_read, allocate, read_all, write_all}

abbrev pub slp_preamble : List ℕ
slp_preamble = 0xbe ∷ 0xef ∷ 0xed ∷ []

abbrev pub slp_header_len : ℕ
slp_header_len = 10

abbrev pub slp_crc_len : ℕ
slp_crc_len = 2

abbrev slp_init_inbuf_len : ℕ
slp_init_inbuf_len = 2048

unfoldable slp_init : M (Unit {0})
slp_init = do
  found ← allocate
  if not found then fail else do
    modify (λ c. record c { slp = record c.slp { inbuf_len = slp_init_inbuf_len } })
    found' ← allocate
    if not found'
        then fail
        else modify (λ c. record c { slp = record c.slp { outbuf_len = slp_init_inbuf_len } })

unfoldable slp_tini : M (Unit {0})
slp_tini = modify (λ c. record c { slp = record c.slp { inbuf_len = 0; outbuf_len = 0 } })

unfoldable slp_bind : SlpAddr → M (Unit {0})
slp_bind addr = do
  set_palmerrno noerr
  modify (λ c. record c { slp = record c.slp { local_addr = addr } })

-- What `slp_read` hands to its caller: the input buffer from its start, and the length of the data.
pub record Packet : Type 0 where
  pub buf : List ℕ
  pub len : ℕ

-- The bytes of the preamble are read one at a time; a wrong one starts the search anew.
unfoldable pub read_preamble : List ℕ → M Bool
read_preamble [] = pure true
read_preamble (p ∷ preamble) = do
  bytes ← pconn_read 1
  if get_or bytes 0 0 == p then read_preamble preamble else pure false

-- Resizes the input buffer where the packet does not fit.
unfoldable pub grow_inbuf : ℕ → M (Unit {0})
grow_inbuf size = do
  len ← gets (λ c. c.slp.inbuf_len)
  if not (ltb len size) then pure tt else do
    found ← allocate
    if not found
        then set_palmerrno nomem >> fail
        else modify (λ c. record c { slp = record c.slp { inbuf_len = size } })

-- The checks of a complete packet: its CRC, over header, body and CRC in three steps.
unfoldable pub finish_packet : Bool → SlpHeader → List ℕ → List ℕ → List ℕ → M (Option Packet)
finish_packet ignore header header_inbuf body crc_inbuf =
    let my_crc = crc16 crc_inbuf (crc16 body (crc16 header_inbuf 0)) in
    if ignore then pure none else if not (my_crc == 0) then pure none else do
      modify (λ c. record c { slp = record c.slp { last_xid = header.xid } })
      len ← gets (λ c. c.slp.inbuf_len)
      pure (some (record { buf = body ++ replicate (len - header.size) 0; len = header.size }))

-- From the parsed header on. `none` is `goto redo`.
unfoldable pub read_body : SlpHeader → List ℕ → M (Option Packet)
unfolding grow_inbuf finish_packet
read_body header header_inbuf = do
  modify (λ c. record c {
    slp = record c.slp { remote_addr = record { protocol = header.type; port = header.src } };
  })
  if not (sum_bytes 0 (take (slp_header_len - 1) header_inbuf) == header.checksum)
      then pure none
      else do
        local ← gets (λ c. c.slp.local_addr)
        let ignore = not (header.type == local.protocol && header.dest == local.port)
        grow_inbuf header.size
        body ← read_all header.size
        crc_inbuf ← read_all slp_crc_len
        finish_packet ignore header header_inbuf body crc_inbuf

-- One attempt, from `redo` on.
unfoldable pub read_packet : M (Option Packet)
unfolding read_preamble read_body parse_header
read_packet = do
  matched ← read_preamble slp_preamble
  if not matched then pure none else do
    rest ← read_all (slp_header_len - length slp_preamble)
    header ← in_bounds (parse_header rest)
    read_body header (slp_preamble ++ rest)

unfoldable pub again : M Packet → Option Packet → M Packet
again retry none = retry
again retry (some p) = pure p

-- Every attempt that does not end the call takes a byte at least.
unfoldable pub slp_read_loop : ℕ → M Packet
unfolding again
slp_read_loop zero = no_fuel
slp_read_loop (suc fuel) = read_packet >>= again (slp_read_loop fuel)

unfoldable pub slp_read : M Packet
unfolding slp_read_loop
slp_read c = (do set_palmerrno noerr; slp_read_loop (suc (length c.device.input))) c

-- The packet that `slp_write` lays out in the output buffer. The length that is handed to `crc16`
-- is a uword.
unfoldable pub packet_bytes : SlpAddr → SlpAddr → ℕ → List ℕ → List ℕ
packet_bytes local remote xid buf =
    let len = length buf in
    let unsummed = put_header slp_preamble remote.port local.port local.protocol len xid in
    let header = put_ubyte unsummed (sum_bytes 0 unsummed) in
    let crc = crc16 (take ((slp_header_len + len) % 2 ^ 16) (header ++ buf)) 0 in
    put_uword (header ++ buf) crc

unfoldable pub grow_outbuf : ℕ → M (Unit {0})
grow_outbuf size = do
  len ← gets (λ c. c.slp.outbuf_len)
  if not (ltb len size) then pure tt else do
    found ← allocate
    if not found
        then set_palmerrno nomem >> fail
        else modify (λ c. record c { slp = record c.slp { outbuf_len = size } })

-- The number of bytes to send, `want`, is a uword too.
unfoldable pub slp_write : List ℕ → M ℕ
unfolding grow_outbuf
slp_write buf = do
  set_palmerrno noerr
  grow_outbuf (slp_header_len + length buf + slp_crc_len)
  packet ← gets (λ c. packet_bytes c.slp.local_addr c.slp.remote_addr c.padp.xid buf)
  write_all (take ((slp_header_len + length buf + slp_crc_len) % 2 ^ 16) packet)
  pure (length buf)
