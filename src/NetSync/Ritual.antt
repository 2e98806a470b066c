-- ===== src/NetSync/Ritual.antt =====
-- libpconn/netsync.c: the packets that are exchanged before the first request. The packets are fixed.
use coldsync.Base.{ℕ, some, List, [], ◌∷◌}
use coldsync.Conn.{ProtocolStack, stack_simple, stack_net, ok, err, eof, fault, stuck, Result}
use coldsync.Conn.Monad.{M, ◌>>=◌, ◌>>◌, fail, gets}
use coldsync.Slp
use coldsync.NetSync.{netsync_read_method, netsync_read, netsync_write}

abbrev pub ritual_resp1 : List ℕ
ritual_resp1 =
    0x90 ∷ 0x01 ∷ 0x00 ∷ 0x00 ∷ 0x00 ∷ 0x00 ∷ 0x00 ∷ 0x00 ∷ 0x00 ∷ 0x20 ∷ 0x00 ∷ 0x00 ∷ 0x00 ∷ 0x08
    ∷ 0x01 ∷ 0x00 ∷ 0x00 ∷ 0x00 ∷ 0x00 ∷ 0x00 ∷ 0x00 ∷ 0x00 ∷ []

abbrev pub ritual_resp1_size : ℕ
ritual_resp1_size = 22

abbrev pub ritual_stmt2 : List ℕ
ritual_stmt2 =
    0x12 ∷ 0x01 ∷ 0x00 ∷ 0x00 ∷ 0x00 ∷ 0x00 ∷ 0x00 ∷ 0x00 ∷ 0x00 ∷ 0x20 ∷ 0x00 ∷ 0x00 ∷ 0x00 ∷ 0x24
    ∷ 0xff ∷ 0xff ∷ 0xff ∷ 0xff ∷ 0x3c ∷ 0x00 ∷ 0x3c ∷ 0x00 ∷ 0x00 ∷ 0x00 ∷ 0x00 ∷ 0x00 ∷ 0x00
    ∷ 0x00 ∷ 0x00 ∷ 0x00 ∷ 0xc0 ∷ 0xa8 ∷ 0x01 ∷ 0x21 ∷ 0x04 ∷ 0x27 ∷ 0x00 ∷ 0x00 ∷ 0x00 ∷ 0x00
    ∷ 0x00 ∷ 0x00 ∷ 0x00 ∷ 0x00 ∷ 0x00 ∷ 0x00 ∷ 0x00 ∷ 0x00 ∷ 0x00 ∷ 0x00 ∷ []

abbrev pub ritual_resp2 : List ℕ
ritual_resp2 =
    0x92 ∷ 0x01 ∷ 0x00 ∷ 0x00 ∷ 0x00 ∷ 0x00 ∷ 0x00 ∷ 0x00 ∷ 0x00 ∷ 0x20 ∷ 0x00 ∷ 0x00 ∷ 0x00 ∷ 0x24
    ∷ 0xff ∷ 0xff ∷ 0xff ∷ 0xff ∷ 0x00 ∷ 0x3c ∷ 0x00 ∷ 0x3c ∷ 0x40 ∷ 0x00 ∷ 0x00 ∷ 0x00 ∷ 0x01
    ∷ 0x00 ∷ 0x00 ∷ 0x00 ∷ 0xc0 ∷ 0xa8 ∷ 0xa5 ∷ 0x1e ∷ 0x04 ∷ 0x01 ∷ 0x00 ∷ 0x00 ∷ 0x00 ∷ 0x00
    ∷ 0x00 ∷ 0x00 ∷ 0x00 ∷ 0x00 ∷ 0x00 ∷ 0x00 ∷ 0x00 ∷ 0x00 ∷ 0x00 ∷ 0x00 ∷ []

abbrev pub ritual_stmt3 : List ℕ
ritual_stmt3 =
    0x13 ∷ 0x01 ∷ 0x00 ∷ 0x00 ∷ 0x00 ∷ 0x00 ∷ 0x00 ∷ 0x00 ∷ 0x00 ∷ 0x20 ∷ 0x00 ∷ 0x00 ∷ 0x00 ∷ 0x20
    ∷ 0xff ∷ 0xff ∷ 0xff ∷ 0xff ∷ 0x00 ∷ 0x3c ∷ 0x00 ∷ 0x3c ∷ 0x00 ∷ 0x00 ∷ 0x00 ∷ 0x00 ∷ 0x00
    ∷ 0x00 ∷ 0x00 ∷ 0x01 ∷ 0x00 ∷ 0x00 ∷ 0x00 ∷ 0x00 ∷ 0x00 ∷ 0x00 ∷ 0x00 ∷ 0x00 ∷ 0x00 ∷ 0x00
    ∷ 0x00 ∷ 0x00 ∷ 0x00 ∷ 0x00 ∷ 0x00 ∷ 0x00 ∷ []

abbrev pub ritual_resp3 : List ℕ
ritual_resp3 = 0x93 ∷ 0x00 ∷ 0x00 ∷ 0x00 ∷ 0x00 ∷ 0x00 ∷ 0x00 ∷ 0x00 ∷ []

-- The packets that come in are not looked at, and only a negative number ends the exchange: an end of
-- file does not.
proceed : Result Slp.Packet → M (Unit {0})
proceed (ok packet) c = (ok tt, c)
proceed err c = (err, c)
proceed eof c = (ok tt, c)
proceed fault c = (fault, c)
proceed stuck c = (stuck, c)

unfoldable pub unless_negative : M Slp.Packet → M (Unit {0})
unfolding proceed
unless_negative m c = proceed (m c).0 (m c).1

-- The first packet may come with a header or without one.
unfoldable pub first_statement : ProtocolStack → M (Unit {0})
unfolding unless_negative
first_statement stack_net = unless_negative (netsync_read_method (some ritual_resp1_size))
first_statement stack_simple = unless_negative (netsync_read_method (some ritual_resp1_size))
first_statement _ = fail

unfoldable pub ritual_exch_server : M (Unit {0})
unfolding first_statement
ritual_exch_server = do
  protocol ← gets (λ c. c.protocol)
  first_statement protocol
  netsync_write ritual_stmt2
  unless_negative netsync_read
  netsync_write ritual_stmt3
  unless_negative netsync_read

unfoldable pub ritual_exch_client : M (Unit {0})
unfolding unless_negative
ritual_exch_client = do
  netsync_write ritual_resp1
  unless_negative netsync_read
  netsync_write ritual_resp2
  unless_negative netsync_read
  netsync_write ritual_resp3
