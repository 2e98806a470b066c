-- ===== src/Padp/Write.antt =====
-- `padp_write`: a message in fragments, each sent until it is acknowledged, ten times at most.
use coldsync.Base.{ℕ, zero, suc, ◌+◌, ◌-◌, ◌%◌, ◌^◌, ◌==◌, leb, not, ◌||◌, if◌then◌else◌}
use coldsync.Base.{List, [], ◌∷◌, length, take, drop}
use coldsync.Bytes.{uword_many}
use coldsync.Conn.{noerr, timeout, abort, ackxid, lost}
use coldsync.Conn.Monad.{
  M, ◌>>=◌, ◌>>◌, pure, fail, no_fuel, modify, gets, set_palmerrno, set_status,
}
use coldsync.Conn.Calls.{pconn_timedselect}
use coldsync.Padp.{
  PadpHeader, padp_max_packet_len, padp_max_retries, fragtype_data, fragtype_ack, fragtype_nak,
  fragtype_tickle, fragtype_abort, flag_last, flag_first, bump_xid,
}
use coldsync.Padp.Parse.{Frag}
use coldsync.Padp.Frag.{padp_tx_frag, padp_rx_frag, padp_ack}

-- The header of the fragment at `offset` of a message of `buf_len` bytes; its size is a uword.
unfoldable pub frag_header : ℕ → ℕ → PadpHeader
frag_header buf_len offset = record {
  type = fragtype_data;
  flags =
      (if offset == 0 then flag_first else 0)
      + (if leb (buf_len - offset) padp_max_packet_len then flag_last else 0);
  size = (if offset == 0 then buf_len else offset) % 2 ^ 16;
}

-- A packet of the other end comes instead of an ACK.
answer_data : Frag → M (Unit {0})
answer_data frag = do
  padp_ack frag.header.flags frag.header.size
  emulate ← gets (λ c. c.emulate_palm)
  if emulate then pure tt else bump_xid

check_ack : M (Unit {0})
check_ack = do
  same ← gets (λ c. c.slp.last_xid == c.padp.xid)
  if same then pure tt else set_palmerrno ackxid >> fail

-- What came in after a fragment was sent; `again` sends it again, within the same attempt.
handle_reply : M (Unit {0}) → Frag → M (Unit {0})
unfolding answer_data check_ack
handle_reply again frag =
    if frag.header.type == fragtype_data
    then answer_data frag >> again
    else if frag.header.type == fragtype_ack
    then check_ack
    else if frag.header.type == fragtype_tickle || frag.header.type == fragtype_nak
    then again
    else if frag.header.type == fragtype_abort
    then set_palmerrno abort >> fail
    else fail

-- The attempts that are left, and the fuel for `goto mpretry`, which every time reads a packet.
unfoldable pub send_frag : ℕ → ℕ → PadpHeader → List ℕ → M (Unit {0})
unfolding handle_reply
send_frag zero fuel header frag = do set_palmerrno timeout; set_status lost; fail
send_frag (suc attempts) zero header frag = no_fuel
send_frag (suc attempts) (suc fuel) header frag = do
  writable ← pconn_timedselect
  if not writable then send_frag attempts (suc fuel) header frag else do
    padp_tx_frag header frag
    readable ← pconn_timedselect
    if not readable
        then send_frag attempts (suc fuel) header frag
        else do reply ← padp_rx_frag; handle_reply (send_frag (suc attempts) fuel header frag) reply

-- The loop over the offsets; `rest` is the message from `offset` on.
write_frags : ℕ → ℕ → ℕ → List ℕ → M (Unit {0})
unfolding send_frag frag_header
write_frags fuel buf_len offset [] = pure tt
write_frags zero buf_len offset (b ∷ bs) = no_fuel
write_frags (suc fuel) buf_len offset (b ∷ bs) = do
  input ← gets (λ c. c.device.input)
  send_frag padp_max_retries (suc (length input)) (frag_header buf_len offset)
      (take padp_max_packet_len (b ∷ bs))
  write_frags fuel buf_len (offset + padp_max_packet_len) (drop padp_max_packet_len (b ∷ bs))

start_xid : M (Unit {0})
start_xid = do
  emulate ← gets (λ c. c.emulate_palm)
  if emulate
      then modify (λ c. record c { padp = record c.padp { xid = c.slp.last_xid } })
      else bump_xid

-- The length is a uword.
unfoldable pub padp_write : List ℕ → M (Unit {0})
unfolding start_xid write_frags
padp_write message = do
  let buf = uword_many message
  modify (λ c. record c { palm_errno = noerr })
  start_xid
  write_frags (length buf) (length buf) 0 buf
