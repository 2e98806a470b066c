-- ===== src/NetSync/Silent.antt =====
-- What becomes of a request over NetSync when no response comes.
use coldsync.Base.{ℕ, zero, suc, ◌≡◌, refl, ap, ◌∙◌, if◌then◌else◌, Bool, false}
use coldsync.Base.{List, [], ◌∷◌, ◌++◌, length, replicate, Option, some}
use mathlib.Core.Path.{ap₂}
use coldsync.Bytes.{IsUword}
use coldsync.Bytes.Laws.{uword_many_lem}
use coldsync.Conn.{PConnection, Reply, ok, err, timeout, timeout2, lost}
use coldsync.Conn.Monad.{bind_ok}
use coldsync.Conn.Calls.{allocate, allocate_lem, ready_of, pconn_timedselect}
use coldsync.Dlp.{
  send_message, dlp_send_req, read_message, dlp_recv_resp, exchange, try_exchange, dlp_dlpc_req,
}
use coldsync.Dlp.Packet.{DlpReqHeader, DlpArg, request_bytes}
use coldsync.NetSync.{
  bump_net_xid, wait_readable, netsync_read_method, netsync_read, netsync_write, netsync_transport,
}
use coldsync.NetSync.AtOnce.{packet_out, netsync_write_at_once}
use coldsync.NetSync.Carries.{cleared}
use coldsync.NetSync.Writing.{wire}

-- The number of the packet that follows the one with this number.
abbrev pub following : Bool → ℕ → ℕ
following ours xid = if ours then xid else bump_net_xid xid

-- The last number and the output after so many packets with the same bytes.
unfoldable pub packets : ℕ → Bool → List ℕ → ℕ → List ℕ → ℕ × List ℕ
packets zero ours bytes xid out = (xid, out)
packets (suc n) ours bytes xid out =
    packets n ours bytes (following ours xid) (out ++ wire (following ours xid) bytes)

-- The connection after so many packets, each of which timed out.
abbrev pub gave_up : ℕ → List ℕ → List Bool → PConnection → PConnection
gave_up n bytes rest c =
    let sent = packets n c.whosonfirst bytes c.net.xid c.device.output in
    record c {
      palm_errno = timeout;
      status = lost;
      net = record c.net { xid = sent.0 };
      device = record c.device { output = sent.1; writes = []; selects = rest };
    }

-- What a wait leaves that times out.
abbrev timed_out : List Bool → PConnection → PConnection
timed_out rest c = record c {
  palm_errno = timeout2;
  status = lost;
  device = record c.device { selects = rest };
}

netsync_read_silent :
    (rest : List Bool) (c : PConnection)
    → c.device.selects ≡ false ∷ rest
    → netsync_read c ≡ (err, timed_out rest c)
unfolding netsync_read netsync_read_method wait_readable pconn_timedselect ready_of
netsync_read_silent rest c e = rw e

module _ (header : DlpReqHeader) (argv : List DlpArg) (bytes : List ℕ)
    (laid_out : request_bytes header argv ≡ some bytes) (short : IsUword (length bytes)) where
  send_at_once :
      (c : PConnection)
      → c.device.writes ≡ []
      → c.device.allocs ≡ []
      → dlp_send_req netsync_transport header argv c ≡ (ok tt, packet_out bytes (cleared c))
  unfolding dlp_send_req
  send_at_once c w a =
      ap (λ (o : Option (List ℕ)). send_message netsync_transport o c) laid_out
      ∙ bind_ok allocate _ (allocate_lem (cleared c) a)
      ∙ ap (λ (out : List ℕ). netsync_write out (cleared c)) (uword_many_lem bytes short)
      ∙ netsync_write_at_once bytes (cleared c) short w

  exchange_silent :
      (rest : List Bool) (c : PConnection)
      → c.device.writes ≡ []
      → c.device.allocs ≡ []
      → c.device.selects ≡ false ∷ rest
      → exchange netsync_transport header argv c
        ≡ (err, timed_out rest (packet_out bytes (cleared c)))
  unfolding exchange dlp_recv_resp read_message
  exchange_silent rest c w a s =
      bind_ok (dlp_send_req netsync_transport header argv) _ {c = c} (send_at_once c w a)
      ∙ rw (netsync_read_silent rest (packet_out bytes (cleared c)) s) refl

  try_exchange_silent :
      (tries : ℕ) (rest : List Bool) (c : PConnection)
      → c.device.writes ≡ []
      → c.device.allocs ≡ []
      → c.device.selects ≡ replicate tries false ++ rest
      → try_exchange netsync_transport tries header argv c ≡ (err, gave_up tries bytes rest c)
  unfolding try_exchange packets
  try_exchange_silent zero rest c w a s =
      ap₂
        (λ (ws : List Reply) (ss : List Bool). (
          err,
          record c {
            palm_errno = timeout;
            status = lost;
            device = record c.device { writes = ws; selects = ss };
          },
        ))
        w s
  try_exchange_silent (suc tries) rest c w a s =
      rw (exchange_silent (replicate tries false ++ rest) c w a s) (
        try_exchange_silent tries rest
          (timed_out (replicate tries false ++ rest) (packet_out bytes (cleared c))) refl a refl)

  -- Over NetSync, on a device that takes everything, where memory is found, and where five waits for
  -- an answer time out: a request whose arguments are there, with fewer than 2 ^ 16 bytes, goes out
  -- five times, each time in a packet with the next number, or with the same one if the connection
  -- was made from this side. Then the call fails: the error number is that of a timeout, and the
  -- connection counts as lost.
  pub dlp_dlpc_req_silent :
      (rest : List Bool) (c : PConnection)
      → c.device.writes ≡ []
      → c.device.allocs ≡ []
      → c.device.selects ≡ replicate 5 false ++ rest
      → dlp_dlpc_req netsync_transport header argv c ≡ (err, gave_up 5 bytes rest c)
  unfolding dlp_dlpc_req
  dlp_dlpc_req_silent rest c w a s = try_exchange_silent 5 rest c w a s
