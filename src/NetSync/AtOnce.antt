-- ===== src/NetSync/AtOnce.antt =====
-- What netsync_write does on a device that takes everything at once, with messages of any length.
use coldsync.Base.{ℕ, ◌≡◌, ◌≤◌, ◌<◌, ◌-◌, refl, sym, ap, ◌∙◌, arith, ◌%◌, ◌^◌}
use coldsync.Base.{List, [], ◌∷◌, ◌++◌, length, take, append_assoc, drop_all, append-nil}
use mathlib.Core.Path.{ap₂}
use coldsync.Bytes.{IsUword, uword_many}
use coldsync.Bytes.Laws.{uword_many_lem}
use coldsync.Conn.{PConnection, Reply, ok}
use coldsync.Conn.Monad.{bind_ok}
use coldsync.Conn.Calls.{serve_write, transmit, write_status, pconn_write, write_loop, write_all}
use coldsync.Conn.Writing.{has_written}
use coldsync.NetSync.{netsync_header_of, netsync_write}
use coldsync.NetSync.Reading.{net_header}
use coldsync.NetSync.Writing.{next_number, numbered, wire, netsync_header_of_lem}

write_at_once :
    (bytes : List ℕ) (c : PConnection)
    → c.device.writes ≡ []
    → pconn_write bytes c ≡ (ok (length bytes), has_written bytes [] c)
unfolding pconn_write serve_write write_status transmit
write_at_once bytes c e = rw e

write_all_at_once :
    (bytes : List ℕ) (c : PConnection)
    → c.device.writes ≡ []
    → write_all bytes c ≡ (ok tt, has_written bytes [] c)
unfolding write_all write_loop
write_all_at_once [] c e =
    ap₂
      (λ (o : List ℕ) (ws : List Reply).
        (ok tt, record c { device = record c.device { output = o; writes = ws } }))
      (sym (append-nil c.device.output)) e
write_all_at_once (b ∷ bytes) c e =
    bind_ok (pconn_write (b ∷ bytes)) _ {c = c} (write_at_once (b ∷ bytes) c e)
    ∙ rw (drop_all (length bytes) bytes (omega arith)) refl

-- The connection after a packet.
abbrev pub packet_out : List ℕ → PConnection → PConnection
packet_out bytes c = record (numbered c) {
  device = record c.device { output = c.device.output ++ wire (next_number c) bytes; writes = [] };
}

netsync_write_cut :
    (message : List ℕ) (c : PConnection)
    → c.device.writes ≡ []
    → netsync_write message c ≡ (ok tt, packet_out (uword_many message) c)
unfolding netsync_write
netsync_write_cut message c e =
    bind_ok (pconn_write (netsync_header_of (next_number c) (length buf))) _ {c = numbered c}
      (write_at_once _ (numbered c) e)
    ∙ rw (netsync_header_of_lem (next_number c) (length buf)) (
        write_all_at_once buf (has_written header [] (numbered c)) refl
        ∙ ap
            (λ (o : List ℕ).
              (ok tt, record (numbered c) { device = record c.device { output = o; writes = [] } }))
            (append_assoc c.device.output header buf))
  where
    buf : List ℕ
    buf = uword_many message

    header : List ℕ
    header = net_header 1 (next_number c % 2 ^ 8) (length buf)

pub netsync_write_at_once :
    (bytes : List ℕ) (c : PConnection)
    → IsUword (length bytes)
    → c.device.writes ≡ []
    → netsync_write bytes c ≡ (ok tt, packet_out bytes c)
netsync_write_at_once bytes c short e =
    netsync_write_cut bytes c e
    ∙ ap (λ (buf : List ℕ). (ok tt, packet_out buf c)) (uword_many_lem bytes short)

over_a_uword :
    (message : List ℕ)
    → 65536 ≤ length message
    → length message < 131072
    → uword_many message ≡ take (length message - 65536) message
unfolding uword_many
over_a_uword message least most = ap (λ (n : ℕ). take n message) (omega (arith, least, most))

-- A message of 2 ^ 16 bytes or more, but fewer than 2 ^ 17, on a device that takes everything: its
-- length is cut to a uword, so that `netsync_write` sends a header for what is over 2 ^ 16, and only
-- so many of the first bytes, and still succeeds.
pub netsync_write_wraps :
    (message : List ℕ) (c : PConnection)
    → 65536 ≤ length message
    → length message < 131072
    → c.device.writes ≡ []
    → netsync_write message c ≡ (ok tt, packet_out (take (length message - 65536) message) c)
netsync_write_wraps message c least most e =
    netsync_write_cut message c e
    ∙ ap (λ (buf : List ℕ). (ok tt, packet_out buf c)) (over_a_uword message least most)
