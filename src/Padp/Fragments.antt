-- ===== src/Padp/Fragments.antt =====
-- A fragment of the other end that comes in, and the acknowledgement that goes out.
use coldsync.Base.{ℕ, ◌+◌, ◌-◌, ◌/◌, ◌%◌, ◌<◌, ◌≤◌, ◌≡◌, refl, ap, ◌∙◌, arith}
use coldsync.Base.{Option, some, List, ◌∷◌, ◌++◌, length, replicate}
use mathlib.Core.Path.{ap₂}
use coldsync.Base.Bits.Masks.{bit_or_low}
use coldsync.Bytes.{IsByte, IsUword, IsBytes}
use coldsync.Bytes.Laws.{uword_bytes, put_ubyte_lem, put_uword_lem}
use coldsync.Conn.{PConnection, SlpAddr, Reply, ok, noerr}
use coldsync.Conn.Monad.{bind_ok, in_bounds}
use coldsync.Conn.Calls.{pconn_timedselect, timedselect_ready}
use coldsync.Conn.Reading.{Willing}
use coldsync.Slp.{packet_bytes, slp_read}
use coldsync.Slp.RoundTrip.{IsFor, slp_read-packet_bytes, accepted, received, room_for, header_of}
use coldsync.Padp.{PadpHeader}
use coldsync.Padp.Parse.{Frag, parse_frag}
use coldsync.Padp.Frag.{put_padp_header, padp_rx_frag, eof_fails, eof_fails_ok}
use coldsync.Padp.Calm.{Calm, Returns}

-- A header whose fields have their widths.
pub record Fits (h : PadpHeader) : Type 0 where
  pub type : IsByte h.type
  pub flags : IsByte h.flags
  pub size : IsUword h.size

abbrev pub padp_bytes : PadpHeader → List ℕ
padp_bytes h = h.type ∷ h.flags ∷ uword_bytes h.size

pub put_padp_header_lem : (h : PadpHeader) → Fits h → put_padp_header h ≡ padp_bytes h
unfolding put_padp_header
put_padp_header_lem h f =
    simp (put_ubyte_lem, put_uword_lem)
      (ap₂ (λ (a b : ℕ). a ∷ b ∷ uword_bytes h.size) (omega (arith, f.type))
        (omega (arith, f.flags)))

parse_frag_lem :
    (h : PadpHeader) (tail : List ℕ) (len : ℕ)
    → IsUword h.size
    → 4 ≤ len
    → len < 65536
    → parse_frag (record { buf = padp_bytes h ++ tail; len = len })
      ≡ some (record { header = h; buf = tail; len = len - 4 })
unfolding parse_frag
parse_frag_lem h tail len s lo hi =
    ap₂ (λ (n k : ℕ). some (record { header = record h { size = n }; buf = tail; len = k }))
      (bit_or_low 8 (h.size / 256 % 256) (h.size % 256) (omega arith) ∙ omega (arith, s))
      (omega arith)

-- The fragment that comes in; what stays the same for the caller, and what the packet changes.
pub record Received (c : PConnection) (from : SlpAddr) (xid : ℕ) (h : PadpHeader) (frag ys : List ℕ)
    (f : Frag) (c' : PConnection) : Type 0 where
  pub zeros : List ℕ
  pub whole : f ≡ record { header = h; buf = frag ++ zeros; len = length frag }
  pub calm : Calm c'
  pub input : c'.device.input ≡ ys
  pub output : c'.device.output ≡ c.device.output
  pub local : c'.slp.local_addr ≡ c.slp.local_addr
  pub sender :
      c'.slp.remote_addr ≡ record { protocol = from.protocol % 256; port = from.port % 256 }
  pub last_xid : c'.slp.last_xid ≡ xid % 256
  pub padp : c'.padp ≡ c.padp
  pub no_error : c'.palm_errno ≡ noerr

-- The bytes of a fragment that another end sends.
abbrev pub frag_packet : SlpAddr → SlpAddr → ℕ → PadpHeader → List ℕ → List ℕ
frag_packet from to xid h frag = packet_bytes from to xid (padp_bytes h ++ frag)

-- On a device that refuses nothing, where nothing times out and memory is found: when the input
-- begins with the packet of a fragment for this connection, whose header has its widths and whose
-- data are bytes and fit a packet, `padp_rx_frag` returns header, data and length, stores sender and
-- transaction, leaves what follows the packet, and sends nothing.
pub padp_rx_frag_lem :
    (c : PConnection) (from to : SlpAddr) (xid : ℕ) (h : PadpHeader) (frag ys : List ℕ)
    → Calm c
    → IsFor c from to
    → Fits h
    → IsBytes frag
    → 14 + length frag < 65536
    → c.device.input ≡ frag_packet from to xid h frag ++ ys
    → Returns (Received c from xid h frag ys) (padp_rx_frag c)
unfolding padp_rx_frag header_of
padp_rx_frag_lem c from to xid h frag ys calm for f b small e = finish (
    slp_read-packet_bytes c₁ from to xid body ys calm.reads calm.allocs for' body_bytes
      (omega (arith, small)) e)
  where
    c₁ : PConnection
    c₁ = record c { palm_errno = noerr }

    body : List ℕ
    body = padp_bytes h ++ frag

    for' : IsFor c₁ from to
    for' = record {
      protocol = for.protocol;
      port = for.port;
      protocol_byte = for.protocol_byte;
      port_byte = for.port_byte;
    }

    body_bytes : IsBytes body
    body_bytes = (f.type, (f.flags, (omega arith, (omega arith, b))))

    zeros : List ℕ
    zeros = replicate (room_for (length body) c - length body) 0

    finish :
        (rs : List Reply) × Willing rs
          × (slp_read c₁ ≡ (
            ok (accepted (header_of from to xid (length body)) body c₁),
            received (header_of from to xid (length body)) ys rs c₁,
          ))
        → Returns (Received c from xid h frag ys) (padp_rx_frag c)
    finish (rs, w, e') = (
      record { header = h; buf = frag ++ zeros; len = length body - 4 },
      c',
      bind_ok pconn_timedselect _ (timedselect_ready c₁ calm.selects)
          ∙ bind_ok (eof_fails slp_read) _ (eof_fails_ok slp_read e')
          ∙ ap (λ (t : Option Frag). in_bounds t c')
              (parse_frag_lem h (frag ++ zeros) (length body) f.size (omega arith)
                (omega (arith, small))),
      record {
        zeros = zeros;
        whole = ap (λ (n : ℕ). record { header = h; buf = frag ++ zeros; len = n }) (omega arith);
        calm = record {
          reads = w;
          writes = calm.writes;
          selects = calm.selects;
          allocs = calm.allocs;
        };
        input = refl;
        output = refl;
        local = refl;
        sender = refl;
        last_xid = refl;
        padp = refl;
        no_error = refl;
      },
    )
      where
        c' : PConnection
        c' = received (header_of from to xid (length body)) ys rs c₁
