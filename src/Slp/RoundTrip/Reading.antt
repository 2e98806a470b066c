-- ===== src/Slp/RoundTrip/Reading.antt =====
-- `slp_read` on an input that begins with a packet for it.
use coldsync.Base.{
  ℕ, ◌+◌, ◌-◌, ◌<◌, ◌≡◌, refl, ap, ◌∙◌, arith, true, false, ltb, ◌==◌, ==_refl, Bool-cases, inl,
  inr, ==_iff,
}
use coldsync.Base.{
  Option, some, List, [], ◌∷◌, ◌++◌, length, take, replicate, append_assoc, if◌then◌else◌,
}
use coldsync.Bytes.{IsByte, IsBytes}
use coldsync.Bytes.Laws.{uword_bytes}
use coldsync.Crc.{crc16}
use coldsync.Conn.{PConnection, SlpAddr, Reply, Result, ok, noerr}
use coldsync.Conn.Monad.{bind_ok, in_bounds}
use coldsync.Conn.Calls.{pconn_read, allocate, allocate_lem, read_all}
use coldsync.Conn.Reading.{Willing, Delivers, left_with, pconn_read_one, read_exactly}
use coldsync.Slp.{
  slp_preamble, Packet, read_preamble, grow_inbuf, finish_packet, read_body, read_packet, slp_read,
  packet_bytes,
}
use coldsync.Slp.Valid.{Good}
use coldsync.Slp.Header.{SlpHeader, parse_header, sum_bytes}
use coldsync.Slp.RoundTrip.Layout.{
  header_bytes, packet_crc, packet_bytes_lem, packet_crc_residue, header_of, parse_header_lem,
}

read_preamble_lem :
    (preamble ys : List ℕ) (c : PConnection)
    → Willing c.device.reads
    → c.device.input ≡ preamble ++ ys
    → Delivers c true ys (read_preamble preamble c)
unfolding read_preamble
read_preamble_lem [] ys c w e =
    (c.device.reads, w, ap (λ (t : List ℕ). (ok true, left_with t c.device.reads c)) e)
read_preamble_lem (p ∷ preamble) ys c w e =
    first (read_preamble_lem preamble ys) (pconn_read_one p (preamble ++ ys) c w e)
  where
    first :
        ((c' : PConnection)
          → Willing c'.device.reads
          → c'.device.input ≡ preamble ++ ys
          → Delivers c' true ys (read_preamble preamble c'))
        → Delivers c (p ∷ []) (preamble ++ ys) (pconn_read 1 c)
        → Delivers c true ys (read_preamble (p ∷ preamble) c)
    first rest (rs, w', e') = second (rest (left_with (preamble ++ ys) rs c) w' refl)
      where
        second :
            Delivers
              (left_with (preamble ++ ys) rs c)
              true
              ys
              (read_preamble preamble (left_with (preamble ++ ys) rs c))
            → Delivers c true ys (read_preamble (p ∷ preamble) c)
        second (rs', w'', e'') = (rs', w'', bind_ok (pconn_read 1) _ e' ∙ rw (==_refl p) e'')

abbrev pub room_for : ℕ → PConnection → ℕ
room_for size c = if ltb c.slp.inbuf_len size then size else c.slp.inbuf_len

grow_inbuf_lem :
    (size : ℕ) (c : PConnection)
    → c.device.allocs ≡ []
    → grow_inbuf size c ≡ (ok tt, record c { slp = record c.slp { inbuf_len = room_for size c } })
unfolding grow_inbuf
grow_inbuf_lem size c e = elim (Bool-cases (ltb c.slp.inbuf_len size)) [
  | inl small ↦ rw small (bind_ok allocate _ (allocate_lem c e))
  | inr large ↦ rw large
]

-- The connection after a packet was accepted: its sender, its transaction, the room made for it.
abbrev pub received : SlpHeader → List ℕ → List Reply → PConnection → PConnection
received header ys rs c = record c {
  device = record c.device { input = ys; reads = rs };
  slp = record c.slp {
    remote_addr = record { protocol = header.type; port = header.src };
    inbuf_len = room_for header.size c;
    last_xid = header.xid;
  };
}

abbrev pub accepted : SlpHeader → List ℕ → PConnection → Packet
accepted header body c = record {
  buf = body ++ replicate (room_for header.size c - header.size) 0;
  len = header.size;
}

finish_packet_lem :
    (header : SlpHeader) (header_inbuf body crc_inbuf : List ℕ) (c : PConnection)
    → crc16 crc_inbuf (crc16 body (crc16 header_inbuf 0)) ≡ 0
    → finish_packet false header header_inbuf body crc_inbuf c ≡ (
      ok (
          some (record {
            buf = body ++ replicate (c.slp.inbuf_len - header.size) 0;
            len = header.size;
          })),
      record c { slp = record c.slp { last_xid = header.xid } },
    )
unfolding finish_packet
finish_packet_lem header header_inbuf body crc_inbuf c e = rw e

Accepts : PConnection → SlpHeader → List ℕ → List ℕ → Result (Option Packet) × PConnection → Type 0
Accepts c header body ys r =
    (rs : List Reply) × Willing rs
    × (r ≡ (ok (some (accepted header body c)), received header ys rs c))

read_body_lem :
    (header : SlpHeader) (header_inbuf body crc_inbuf ys : List ℕ) (c : PConnection)
    → Willing c.device.reads
    → c.device.allocs ≡ []
    → c.device.input ≡ body ++ (crc_inbuf ++ ys)
    → Good c header header_inbuf body crc_inbuf
    → Accepts c header body ys (read_body header header_inbuf c)
unfolding read_body Accepts
read_body_lem header header_inbuf body crc_inbuf ys c w a e g =
    first (read_exactly header.size body (crc_inbuf ++ ys) c₂ g.body_size w e)
  where
    -- The connection with the sender's address, and with room for the packet.
    c₁ : PConnection
    c₁ = record c {
      slp = record c.slp { remote_addr = record { protocol = header.type; port = header.src } };
    }

    c₂ : PConnection
    c₂ = record c₁ { slp = record c₁.slp { inbuf_len = room_for header.size c } }

    tests :
        ((sum_bytes 0 (take 9 header_inbuf) == header.checksum) ≡ true)
        × ((header.type == c.slp.local_addr.protocol) ≡ true)
        × ((header.dest == c.slp.local_addr.port) ≡ true)
    tests = (
      (==_iff _ header.checksum).1 g.sum_good,
      (==_iff header.type _).1 g.protocol_good,
      (==_iff header.dest _).1 g.port_good,
    )

    first :
        Delivers c₂ body (crc_inbuf ++ ys) (read_all header.size c₂)
        → Accepts c header body ys (read_body header header_inbuf c)
    first (rs, w', e') =
        second (read_exactly 2 crc_inbuf ys (left_with (crc_inbuf ++ ys) rs c₂) g.crc_size w' refl)
      where
        second :
            Delivers
              (left_with (crc_inbuf ++ ys) rs c₂)
              crc_inbuf
              ys
              (read_all 2 (left_with (crc_inbuf ++ ys) rs c₂))
            → Accepts c header body ys (read_body header header_inbuf c)
        second (rs', w'', e'') = (
          rs',
          w'',
          rw (tests.0, tests.1, tests.2)
              (bind_ok (grow_inbuf header.size) _ (grow_inbuf_lem header.size c₁ a)
                ∙ bind_ok (read_all header.size) _ e'
                ∙ bind_ok (read_all 2) _ e''
                ∙ finish_packet_lem header header_inbuf body crc_inbuf (left_with ys rs' c₂)
                    g.crc_good),
        )

-- A whole packet: preamble, seven bytes of header, body and CRC.
read_packet_lem :
    (header : SlpHeader) (rest body crc_inbuf ys : List ℕ) (c : PConnection)
    → Willing c.device.reads
    → c.device.allocs ≡ []
    → c.device.input ≡ slp_preamble ++ (rest ++ (body ++ (crc_inbuf ++ ys)))
    → length rest ≡ 7
    → parse_header rest ≡ some header
    → Good c header (slp_preamble ++ rest) body crc_inbuf
    → Accepts c header body ys (read_packet c)
unfolding read_packet Accepts
read_packet_lem header rest body crc_inbuf ys c w a e h p g =
    first (read_preamble_lem slp_preamble (rest ++ (body ++ (crc_inbuf ++ ys))) c w e)
  where
    after : List ℕ
    after = body ++ (crc_inbuf ++ ys)

    first :
        Delivers c true (rest ++ after) (read_preamble slp_preamble c)
        → Accepts c header body ys (read_packet c)
    first (rs, w', e') =
        second (read_exactly 7 rest after (left_with (rest ++ after) rs c) h w' refl)
      where
        second :
            Delivers
              (left_with (rest ++ after) rs c)
              rest
              after
              (read_all 7 (left_with (rest ++ after) rs c))
            → Accepts c header body ys (read_packet c)
        second (rs', w'', e'') = third (
            read_body_lem header (slp_preamble ++ rest) body crc_inbuf ys (left_with after rs' c)
              w'' a refl
              (record {
                sum_good = g.sum_good;
                protocol_good = g.protocol_good;
                port_good = g.port_good;
                body_size = g.body_size;
                crc_size = g.crc_size;
                crc_good = g.crc_good;
              }))
          where
            parsed :
                in_bounds (parse_header rest) (left_with after rs' c)
                ≡ (ok header, left_with after rs' c)
            parsed = rw p

            third :
                Accepts
                  (left_with after rs' c)
                  header
                  body
                  ys
                  (read_body header (slp_preamble ++ rest) (left_with after rs' c))
                → Accepts c header body ys (read_packet c)
            third (rs'', w₃, e₃) = (
              rs'',
              w₃,
              bind_ok (read_preamble slp_preamble) _ e'
                  ∙ bind_ok (read_all 7) _ e''
                  ∙ bind_ok (in_bounds (parse_header rest)) _ parsed
                  ∙ e₃,
            )

-- `slp_read` from this header, body and rest.
abbrev pub Returns :
    PConnection → SlpHeader → List ℕ → List ℕ → Result Packet × PConnection → Type 0
Returns c header body ys r =
    (rs : List Reply) × Willing rs
    × (r ≡ (ok (accepted header body c), received header ys rs (record c { palm_errno = noerr })))

slp_read-Accepts :
    (header : SlpHeader) (body ys : List ℕ) (c : PConnection)
    → Accepts
        (record c { palm_errno = noerr })
        header
        body
        ys
        (read_packet (record c { palm_errno = noerr }))
    → Returns c header body ys (slp_read c)
unfolding slp_read Accepts
slp_read-Accepts header body ys c (rs, w, e) = (rs, w, bind_ok read_packet _ e)

-- The header that `slp_write` lays out is for this connection.
pub record IsFor (c : PConnection) (from to : SlpAddr) : Type 0 where
  pub protocol : from.protocol ≡ c.slp.local_addr.protocol
  pub port : to.port ≡ c.slp.local_addr.port
  pub protocol_byte : IsByte from.protocol
  pub port_byte : IsByte to.port

-- Where the input of a connection begins with a packet that another end's `slp_write` laid out for
-- it, with a body of bytes that fits a uword with the header, `slp_read` returns the body and its
-- length, in a buffer filled up with zeros, stores sender and transaction, and leaves exactly what
-- follows the packet. This holds for every way in which the device, as long as it refuses no read,
-- cuts the input up, and where memory is found.
pub slp_read-packet_bytes :
    (c : PConnection) (from to : SlpAddr) (xid : ℕ) (body ys : List ℕ)
    → Willing c.device.reads
    → c.device.allocs ≡ []
    → IsFor c from to
    → IsBytes body
    → 10 + length body < 65536
    → c.device.input ≡ packet_bytes from to xid body ++ ys
    → Returns c (header_of from to xid (length body)) body ys (slp_read c)
unfolding header_of
slp_read-packet_bytes c from to xid body ys w a for b h e =
    slp_read-Accepts (header_of from to xid (length body)) body ys c (
      read_packet_lem (header_of from to xid (length body)) (header_bytes from to xid (length body))
        body (uword_bytes (packet_crc from to xid body)) ys (record c { palm_errno = noerr }) w a
        laid_out refl (parse_header_lem from to xid (length body) (omega arith))
        (record {
          sum_good = refl;
          protocol_good = omega (arith, for.protocol, for.protocol_byte);
          port_good = omega (arith, for.port, for.port_byte);
          body_size = refl;
          crc_size = refl;
          crc_good = packet_crc_residue from to xid body b;
        }))
  where
    laid_out :
        c.device.input
        ≡ slp_preamble
          ++ (header_bytes from to xid (length body)
              ++ (body ++ (uword_bytes (packet_crc from to xid body) ++ ys)))
    laid_out =
        e
        ∙ ap (λ (t : List ℕ). t ++ ys) (packet_bytes_lem from to xid body h)
        ∙ ap (λ (t : List ℕ). slp_preamble ++ (header_bytes from to xid (length body) ++ t))
            (append_assoc body (uword_bytes (packet_crc from to xid body)) ys)
