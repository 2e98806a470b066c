-- ===== src/Slp/RoundTrip/Layout.antt =====
-- The bytes of a packet, part by part.
use coldsync.Base.{ℕ, ◌+◌, ◌/◌, ◌%◌, ◌^◌, ◌<◌, ◌≡◌, sym, ap, ◌∙◌, arith}
use coldsync.Base.{some, List, [], ◌∷◌, ◌++◌, length, take, length-append, take_all, All-append}
use coldsync.Bytes.{IsByte, IsBytes}
use coldsync.Bytes.Laws.{uword_bytes, put_ubyte_lem, put_uword_lem}
use coldsync.Base.Bits.Masks.{bit_or_low}
use coldsync.Crc.{crc16}
use coldsync.Crc.Step.{crc16-append, crc16-append_own}
use coldsync.Conn.{SlpAddr}
use coldsync.Slp.{slp_preamble, slp_header_len, packet_bytes}
use coldsync.Slp.Header.{SlpHeader, parse_header, sum_bytes, put_header}

-- The header behind the preamble: ports and protocol, the length of the body, transaction, sum.
abbrev header_fields : SlpAddr → SlpAddr → ℕ → ℕ → List ℕ
header_fields local remote xid len =
    (remote.port % 256)
    ∷ (local.port % 256)
    ∷ (local.protocol % 256)
    ∷ (len / 256 % 256)
    ∷ (len % 256)
    ∷ (xid % 256)
    ∷ []

abbrev header_sum : SlpAddr → SlpAddr → ℕ → ℕ → ℕ
header_sum local remote xid len = sum_bytes 0 (slp_preamble ++ header_fields local remote xid len)

abbrev pub header_bytes : SlpAddr → SlpAddr → ℕ → ℕ → List ℕ
header_bytes local remote xid len =
    header_fields local remote xid len ++ (header_sum local remote xid len ∷ [])

abbrev pub packet_crc : SlpAddr → SlpAddr → ℕ → List ℕ → ℕ
packet_crc local remote xid buf =
    crc16 (slp_preamble ++ header_bytes local remote xid (length buf) ++ buf) 0

sum_bytes-IsByte : (sum : ℕ) (bytes : List ℕ) → IsByte sum → IsByte (sum_bytes sum bytes)
unfolding sum_bytes
sum_bytes-IsByte sum [] h = h
sum_bytes-IsByte sum (b ∷ bytes) h = sum_bytes-IsByte ((sum + b) % 2 ^ 8) bytes (omega arith)

put_header_lem :
    (local remote : SlpAddr) (xid len : ℕ)
    → put_header slp_preamble remote.port local.port local.protocol len xid
      ≡ slp_preamble ++ header_fields local remote xid len
unfolding put_header
put_header_lem local remote xid len = simp (put_ubyte_lem, put_uword_lem)

-- A packet: preamble, header, body, CRC.
pub packet_bytes_lem :
    (local remote : SlpAddr) (xid : ℕ) (buf : List ℕ)
    → 10 + length buf < 65536
    → packet_bytes local remote xid buf
      ≡ slp_preamble
        ++ (header_bytes local remote xid (length buf)
            ++ (buf ++ uword_bytes (packet_crc local remote xid buf)))
unfolding packet_bytes
packet_bytes_lem local remote xid buf h =
    rw (put_header_lem, put_ubyte_lem, put_uword_lem, whole_sum, whole_packet)
  where
    len : ℕ
    len = length buf

    whole_sum : header_sum local remote xid len % 256 ≡ header_sum local remote xid len
    whole_sum = omega (
      arith,
      sum_bytes-IsByte 0 (slp_preamble ++ header_fields local remote xid len) (omega arith),
    )

    whole_packet :
        take
          ((slp_header_len + len) % 65536)
          (slp_preamble ++ header_bytes local remote xid len ++ buf)
        ≡ slp_preamble ++ header_bytes local remote xid len ++ buf
    whole_packet =
        take_all ((slp_header_len + len) % 65536)
          (slp_preamble ++ header_bytes local remote xid len ++ buf) (omega arith)

pub length-packet_bytes :
    (local remote : SlpAddr) (xid : ℕ) (buf : List ℕ)
    → 10 + length buf < 65536
    → length (packet_bytes local remote xid buf) ≡ 12 + length buf
length-packet_bytes local remote xid buf h = omega (
  arith,
  ap length (packet_bytes_lem local remote xid buf h),
  length-append buf (uword_bytes (packet_crc local remote xid buf)),
)

header_bytes-IsBytes :
    (local remote : SlpAddr) (xid len : ℕ) → IsBytes (header_bytes local remote xid len)
header_bytes-IsBytes local remote xid len =
    omega
      (arith, sum_bytes-IsByte 0 (slp_preamble ++ header_fields local remote xid len) (omega arith))

-- The reader's three steps over header, body and CRC give 0.
pub packet_crc_residue :
    (local remote : SlpAddr) (xid : ℕ) (buf : List ℕ)
    → IsBytes buf
    → crc16
        (uword_bytes (packet_crc local remote xid buf))
        (crc16 buf (crc16 (slp_preamble ++ header_bytes local remote xid (length buf)) 0))
      ≡ 0
packet_crc_residue local remote xid buf h =
    ap (crc16 (uword_bytes (packet_crc local remote xid buf))) (sym (crc16-append header buf 0))
    ∙ sym (crc16-append (header ++ buf) (uword_bytes (packet_crc local remote xid buf)) 0)
    ∙ crc16-append_own (header ++ buf) 0 (omega arith) (
        All-append IsByte header buf
          (
            omega arith,
            (omega arith, (omega arith, header_bytes-IsBytes local remote xid (length buf))),
          )
          h)
  where
    header : List ℕ
    header = slp_preamble ++ header_bytes local remote xid (length buf)

-- What the reader makes of the header.
unfoldable pub header_of : SlpAddr → SlpAddr → ℕ → ℕ → SlpHeader
header_of local remote xid len = record {
  dest = remote.port % 256;
  src = local.port % 256;
  type = local.protocol % 256;
  size = len;
  xid = xid % 256;
  checksum = header_sum local remote xid len;
}

pub parse_header_lem :
    (local remote : SlpAddr) (xid len : ℕ)
    → len < 65536
    → parse_header (header_bytes local remote xid len) ≡ some (header_of local remote xid len)
unfolding parse_header header_of
parse_header_lem local remote xid len h =
    ap (λ (t : ℕ). some (record (header_of local remote xid len) { size = t }))
      (bit_or_low 8 (len / 256 % 256) (len % 256) (omega arith) ∙ omega arith)
