-- ===== src/Slp/Valid.antt =====
-- What makes a packet acceptable.
use coldsync.Base.{ℕ, ◌≡◌, List, length, take}
use coldsync.Crc.{crc16}
use coldsync.Conn.{PConnection}
use coldsync.Slp.Header.{SlpHeader, sum_bytes}

-- A header for this connection with a good sum, and the bytes that it announces with a good CRC.
pub record Good (c : PConnection) (header : SlpHeader) (header_inbuf body crc_inbuf : List ℕ)
    : Type 0 where
  pub sum_good : sum_bytes 0 (take 9 header_inbuf) ≡ header.checksum
  pub protocol_good : header.type ≡ c.slp.local_addr.protocol
  pub port_good : header.dest ≡ c.slp.local_addr.port
  pub body_size : length body ≡ header.size
  pub crc_size : length crc_inbuf ≡ 2
  pub crc_good : crc16 crc_inbuf (crc16 body (crc16 header_inbuf 0)) ≡ 0
