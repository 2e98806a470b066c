-- ===== src/Padp/Frag.antt =====
-- One fragment, sent and received, and the acknowledgement.
use coldsync.Base.{ℕ, ◌≡◌, ap, ltb, not, if◌then◌else◌}
use coldsync.Base.{List, [], ◌++◌, length}
use coldsync.Bytes.{put_ubyte, put_uword}
use coldsync.Conn.{PConnection, Result, ok, err, eof, fault, stuck, noerr}
use coldsync.Conn.Monad.{M, ◌>>=◌, ◌>>◌, pure, fail, faulty, modify, in_bounds}
use coldsync.Conn.Calls.{pconn_timedselect}
use coldsync.Slp.{slp_read, slp_write}
use coldsync.Padp.Parse.{Frag, parse_frag}
use coldsync.Padp.{PadpHeader, padp_max_packet_len, fragtype_ack}

-- The header's bytes.
unfoldable pub put_padp_header : PadpHeader → List ℕ
put_padp_header header = put_uword (put_ubyte (put_ubyte [] header.type) header.flags) header.size

-- `outbuf` has room for a header and 1024 bytes: a longer payload is written past its end.
unfoldable pub padp_tx_frag : PadpHeader → List ℕ → M (Unit {0})
padp_tx_frag header buf =
    if ltb padp_max_packet_len (length buf)
    then faulty
    else slp_write (put_padp_header header ++ buf) >>= λ _. pure tt

-- The flags of the packet are not sent back.
unfoldable pub padp_ack : ℕ → ℕ → M (Unit {0})
padp_ack flags size = do
  modify (λ c. record c { padp = record c.padp { xid = c.slp.last_xid } })
  padp_tx_frag (record { type = fragtype_ack; flags = 0; size = size }) []

-- A call whose 0 for the end of the file becomes -1.
unfoldable pub eof_fails {ℓ} : {A : Type ℓ} → M A → M A
eof_fails m c =
    let (r, c') = m c in
    elim r [
      | ok a ↦ (ok a, c')
      | err ↦ (err, c')
      | eof ↦ (err, c')
      | fault ↦ (fault, c')
      | stuck ↦ (stuck, c')
    ]

pub eof_fails_ok :
    {A : Type 0} (m : M A) {c c' : PConnection} {a : A}
    → m c ≡ (ok a, c')
    → eof_fails m c ≡ (ok a, c')
unfolding eof_fails
eof_fails_ok m {c} e = ap (λ (r : Result _ × PConnection). eof_fails (λ _. r) c) e

-- `padp_rx_frag`; the end of the file is an error here.
unfoldable pub padp_rx_frag : M Frag
padp_rx_frag = do
  modify (λ c. record c { palm_errno = noerr })
  ready ← pconn_timedselect
  if not ready then fail else do packet ← eof_fails slp_read; in_bounds (parse_frag packet)
