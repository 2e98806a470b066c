-- ===== src/NetSync/Writing.antt =====
-- What netsync_write sends to a device that takes it.
use coldsync.Base.{ℕ, ◌%◌, ◌^◌, ◌≡◌, refl, ap, ◌∙◌, arith, if◌then◌else◌}
use coldsync.Base.{List, [], ◌∷◌, ◌++◌, length, append_assoc, take, take_all}
use coldsync.Bytes.{IsUword, put_ubyte}
use coldsync.Bytes.Laws.{put_udword_lem, uword_many_lem}
use coldsync.Conn.{PConnection, Reply, upto, refuse, ok}
use coldsync.Conn.Monad.{bind_ok}
use coldsync.Conn.Writing.{Puts, has_written, write_all_lem}
use coldsync.Conn.Calls.{passing, serve_write, write_status, pconn_write, transmit, write_all}
use coldsync.NetSync.{bump_net_xid, netsync_header_of, netsync_write}
use coldsync.NetSync.Reading.{HeaderWhole, after_one, after_one-Willing, passing_whole, net_header}

-- The number of the next packet, and the connection that has taken it.
abbrev pub next_number : PConnection → ℕ
next_number c = if c.whosonfirst then c.net.xid else bump_net_xid c.net.xid

abbrev pub numbered : PConnection → PConnection
numbered c = record c { net = record c.net { xid = next_number c } }

-- The bytes of a message on the wire.
abbrev pub wire : ℕ → List ℕ → List ℕ
wire xid buf = net_header 1 (xid % 2 ^ 8) (length buf) ++ buf

pub netsync_header_of_lem :
    (xid len : ℕ) → netsync_header_of xid len ≡ net_header 1 (xid % 2 ^ 8) len
unfolding netsync_header_of put_ubyte
netsync_header_of_lem xid len = rw put_udword_lem

serve_whole :
    (header : List ℕ) (ws : List Reply) (c : PConnection)
    → length header ≡ 6
    → HeaderWhole ws
    → serve_write ws header c ≡ (ok 6, transmit header (after_one ws) c)
unfolding serve_write
serve_whole header [] c len whole = ap (λ (n : ℕ). (ok n, transmit header [] c)) len
serve_whole header (upto k ∷ rest) c len (h, w) =
    ap (λ (n : ℕ). (ok n, transmit (take n header) rest c)) (ap (passing k) len ∙ passing_whole k h)
    ∙ ap (λ (t : List ℕ). (ok 6, transmit t rest c)) (take_all 6 header (omega (arith, len)))
serve_whole header (refuse ∷ rest) c len whole = elim whole [ ]

pconn_write_header :
    (header : List ℕ) (c : PConnection)
    → length header ≡ 6
    → HeaderWhole c.device.writes
    → pconn_write header c ≡ (ok 6, has_written header (after_one c.device.writes) c)
unfolding pconn_write write_status transmit
pconn_write_header header c len whole = rw (serve_whole header c.device.writes c len whole)

-- Where a device takes the header at one go and a message that fits a uword in whatever pieces, `netsync_write` sends
-- the header, with the next number and the length, and the message, and nothing else.
pub netsync_write_lem :
    (buf : List ℕ) (c : PConnection)
    → IsUword (length buf)
    → HeaderWhole c.device.writes
    → Puts (wire (next_number c) buf) (numbered c) (netsync_write buf c)
unfolding netsync_write
netsync_write_lem buf c short whole = finish (write_all_lem buf after (after_one-Willing _ whole))
  where
    header : List ℕ
    header = net_header 1 (next_number c % 2 ^ 8) (length buf)

    after : PConnection
    after = has_written header (after_one c.device.writes) (numbered c)

    steps : netsync_write buf c ≡ write_all buf after
    steps = rw (uword_many_lem buf short) (
        bind_ok (pconn_write (netsync_header_of (next_number c) (length buf))) _ {c = numbered c} (
          ap (λ (t : List ℕ). pconn_write t (numbered c))
            (netsync_header_of_lem (next_number c) (length buf))
          ∙ pconn_write_header header (numbered c) refl whole))

    finish :
        Puts buf after (write_all buf after)
        → Puts (wire (next_number c) buf) (numbered c) (netsync_write buf c)
    finish (ws, w, done) = (
      ws,
      w,
      steps
          ∙ done
          ∙ ap
              (λ (t : List ℕ). (
                ok tt,
                record (numbered c) { device = record c.device { output = t; writes = ws } },
              ))
              (append_assoc c.device.output header buf),
    )
