-- ===== src/Padp/Read.antt =====
-- `padp_read`: a message of one fragment, or of several that are put together in `padp.inbuf`.
use coldsync.Base.{
  ℕ, zero, suc, ◌+◌, ◌%◌, ◌^◌, ◌==◌, leb, not, ◌&&◌, ◌||◌, if◌then◌else◌, bit_and, ◌≡◌, ap,
}
use coldsync.Base.{Option, none, some, List, [], ◌++◌, length, take, drop, replicate}
use coldsync.Conn.{PConnection, Result, ok, err, eof, fault, stuck, noerr, nomem, abort}
use coldsync.Conn.Monad.{M, ◌>>=◌, ◌>>◌, pure, fail, faulty, no_fuel, modify, gets, set_palmerrno}
use coldsync.Conn.Calls.{pconn_timedselect, allocate}
use coldsync.Slp.{Packet}
use coldsync.Padp.{
  fragtype_data, fragtype_ack, fragtype_nak, fragtype_tickle, fragtype_abort, flag_last, flag_first,
}
use coldsync.Padp.Parse.{Frag}
use coldsync.Padp.Frag.{padp_rx_frag, padp_ack}

-- The caller does not look at the result of the acknowledgement.
unfoldable pub ignoring_errors : M (Unit {0}) → M (Unit {0})
ignoring_errors m c =
    let (r, c') = m c in
    elim r [
      | ok a ↦ (ok tt, c')
      | err ↦ (ok tt, c')
      | eof ↦ (ok tt, c')
      | fault ↦ (fault, c')
      | stuck ↦ (stuck, c')
    ]

pub ignoring_errors_ok :
    (m : M (Unit {0})) {c c' : PConnection} → m c ≡ (ok tt, c') → ignoring_errors m c ≡ (ok tt, c')
unfolding ignoring_errors
ignoring_errors_ok m {c} e =
    ap (λ (r : Result (Unit {0}) × PConnection). ignoring_errors (λ _. r) c) e

-- A buffer of `size` bytes; what a new one holds, C leaves open.
abbrev pub resized : ℕ → Option (List ℕ) → List ℕ
resized size none = replicate size 0
resized size (some old) = take size (old ++ replicate size 0)

-- malloc sets no length, realloc does.
abbrev pub resized_len : ℕ → Option (List ℕ) → ℕ → ℕ
resized_len size none len = len
resized_len size (some old) len = size

unfoldable pub grow_message : ℕ → M (Unit {0})
grow_message msg_len = do
  found ← allocate
  if not found
      then set_palmerrno nomem >> fail
      else modify (λ c. record c {
        padp = record c.padp {
          inbuf = some (resized msg_len c.padp.inbuf);
          inbuf_len = resized_len msg_len c.padp.inbuf c.padp.inbuf_len;
        };
      })

abbrev write_at : ℕ → List ℕ → List ℕ → List ℕ
write_at offset bytes buf = take offset buf ++ (bytes ++ drop (offset + length bytes) buf)

-- memcpy(padp.inbuf + offset, buf, len): a fault where either buffer is too short.
unfoldable pub copied : ℕ → Frag → Option (List ℕ) → Option (List ℕ)
copied offset frag none = none
copied offset frag (some inbuf) =
    if leb frag.len (length frag.buf) && leb (offset + frag.len) (length inbuf)
    then some (write_at offset (take frag.len frag.buf) inbuf)
    else none

unfoldable pub store_copy : Option (List ℕ) → M (Unit {0})
store_copy none = faulty
store_copy (some inbuf) = modify (λ c. record c { padp = record c.padp { inbuf = some inbuf } })

unfoldable pub copy_frag : ℕ → Frag → M (Unit {0})
unfolding store_copy copied
copy_frag offset frag = do inbuf ← gets (λ c. c.padp.inbuf); store_copy (copied offset frag inbuf)

-- What the message buffer holds from its start, and the length that the first fragment gave.
abbrev pub message : ℕ → PConnection → Packet
message msg_len c = record { buf = from c.padp.inbuf; len = msg_len }
  where
    from : Option (List ℕ) → List ℕ
    from none = []
    from (some inbuf) = inbuf

-- A data fragment after the first: it must follow on, and the last one ends the message.
unfoldable pub read_next : ℕ → ℕ → (ℕ → M Packet) → Frag → M Packet
unfolding copy_frag ignoring_errors
read_next msg_len cur_offset more frag =
    if not (bit_and frag.header.flags flag_first == 0)
    then fail
    else if not (frag.header.size == cur_offset)
    then fail
    else do
      copy_frag cur_offset frag
      ignoring_errors (padp_ack frag.header.flags frag.header.size)
      if bit_and frag.header.flags flag_last == 0
          then more ((cur_offset + frag.len) % 2 ^ 16)
          else gets (message msg_len)

-- The loop from `mpretry` on; every round reads a packet.
unfoldable pub read_rest : ℕ → ℕ → ℕ → M Packet
unfolding read_next
read_rest zero msg_len cur_offset = no_fuel
read_rest (suc fuel) msg_len cur_offset = do
  ready ← pconn_timedselect
  if not ready then fail else do
    frag ← padp_rx_frag
    if frag.header.type == fragtype_data
        then read_next msg_len cur_offset (read_rest fuel msg_len) frag
        else if frag.header.type == fragtype_ack || frag.header.type == fragtype_tickle
        then read_rest fuel msg_len cur_offset
        else if frag.header.type == fragtype_abort
        then set_palmerrno abort >> fail
        else fail

-- A message of one fragment.
unfoldable pub read_single : Frag → M Packet
unfolding ignoring_errors
read_single frag = do
  ignoring_errors (padp_ack frag.header.flags frag.header.size)
  pure (record { buf = frag.buf; len = frag.header.size })

-- A message of several fragments, from its first one on.
unfoldable pub read_multi : ℕ → Frag → M Packet
unfolding grow_message copy_frag read_rest ignoring_errors
read_multi fuel frag = do
  grow_message frag.header.size
  copy_frag 0 frag
  ignoring_errors (padp_ack frag.header.flags frag.header.size)
  read_rest fuel frag.header.size frag.len

-- The first data fragment.
unfoldable pub read_first : ℕ → Frag → M Packet
unfolding read_single read_multi
read_first fuel frag =
    if bit_and frag.header.flags (flag_first + flag_last) == flag_first + flag_last
    then read_single frag
    else read_multi fuel frag

-- The loop from `retry` on.
unfoldable pub read_message : ℕ → M Packet
unfolding read_first
read_message zero = no_fuel
read_message (suc fuel) = do
  frag ← padp_rx_frag
  if frag.header.type == fragtype_data
      then read_first fuel frag
      else if frag.header.type == fragtype_ack
          || (frag.header.type == fragtype_tickle || frag.header.type == fragtype_nak)
      then read_message fuel
      else if frag.header.type == fragtype_abort
      then set_palmerrno abort >> fail
      else fail

-- Every round reads a packet, which takes a byte at least.
unfoldable pub padp_read : M Packet
unfolding read_message
padp_read c =
    (do modify (λ c. record c { palm_errno = noerr }); read_message (suc (length c.device.input))) c
