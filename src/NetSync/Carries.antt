-- ===== src/NetSync/Carries.antt =====
-- Requests of DLP over NetSync, from one side to the other.
use coldsync.Base.{
  ℕ, ◌%◌, ◌^◌, ◌≡◌, sym, ap, ◌∙◌, arith, Option, some, List, [], ◌++◌, length, append-nil,
  append_assoc, All,
}
use mathlib.Core.Path.{ap₂}
use coldsync.Bytes.{IsByte, IsUword}
use coldsync.Bytes.Laws.{uword_many_lem}
use coldsync.Conn.{PConnection, Reply, ok, noerr}
use coldsync.Conn.Monad.{bind_ok}
use coldsync.Conn.Reading.{Delivers, left_with}
use coldsync.Conn.Writing.{Puts}
use coldsync.Conn.Calls.{allocate, allocate_lem}
use coldsync.Dlp.{send_message, dlp_send_req, dlp_recv_req}
use coldsync.Dlp.Packet.{DlpArg, request_bytes}
use coldsync.Dlp.Args.{Fits}
use coldsync.Dlp.RoundTrip.{with_argv, Brings, dlp_recv_req-request_bytes}
use coldsync.NetSync.{netsync_read, netsync_write, netsync_transport}
use coldsync.NetSync.Reading.{HeaderWhole, net_header, packet, heard, netsync_read_lem}
use coldsync.NetSync.Writing.{next_number, numbered, wire, netsync_write_lem}

-- The error number is cleared before a request goes out.
abbrev pub cleared : PConnection → PConnection
cleared c = record c { palm_errno = noerr }

dlp_send_req_netsync :
    (id : ℕ) (argv : List DlpArg) (bytes : List ℕ) (c : PConnection)
    → request_bytes (record { id = id; argc = length argv }) argv ≡ some bytes
    → IsUword (length bytes)
    → c.device.allocs ≡ []
    → HeaderWhole c.device.writes
    → Puts
        (wire (next_number c) bytes)
        (numbered (cleared c))
        (dlp_send_req netsync_transport (record { id = id; argc = length argv }) argv c)
unfolding dlp_send_req
dlp_send_req_netsync id argv bytes c laid_out short a whole =
    finish (netsync_write_lem bytes (cleared c) short whole)
  where
    finish :
        Puts (wire (next_number c) bytes) (numbered (cleared c)) (netsync_write bytes (cleared c))
        → Puts
            (wire (next_number c) bytes)
            (numbered (cleared c))
            (dlp_send_req netsync_transport (record { id = id; argc = length argv }) argv c)
    finish (ws, w, done) = (
      ws,
      w,
      ap (λ (o : Option (List ℕ)). send_message netsync_transport o c) laid_out
          ∙ bind_ok allocate _ (allocate_lem (cleared c) a)
          ∙ ap (λ (out : List ℕ). netsync_write out (cleared c)) (uword_many_lem bytes short)
          ∙ done,
    )

-- What comes in over NetSync is what a message's reader asks for.
netsync_read-Brings :
    (cmd xid : ℕ) (bytes rest : List ℕ) (r : PConnection) (rs : List Reply)
    → IsUword (length bytes)
    → r.device.allocs ≡ []
    → netsync_read r ≡ (ok (packet bytes), left_with rest rs (heard xid r))
    → Brings netsync_transport bytes r (left_with rest rs (heard xid r))
netsync_read-Brings cmd xid bytes rest r rs h a e = record {
  rest = [];
  result =
      e
      ∙ ap₂
          (λ (buf : List ℕ) (len : ℕ).
            (ok (record { buf = buf; len = len }), left_with rest rs (heard xid r)))
          (sym (append-nil bytes)) (omega (arith, h));
  allocs = a;
}

-- A request of less than 2 ^ 16 bytes, with a number and arguments that its bytes have room for, goes
-- over NetSync: `dlp_send_req` sends a header and the request's bytes, and where the other side gets
-- these bytes, `dlp_recv_req` returns the number and the arguments, and takes these bytes and no
-- others. Both sides find memory, and a header passes at one go; all else passes in whatever pieces.
pub netsync_carries_request :
    (id : ℕ) (argv : List DlpArg) (bytes rest : List ℕ) (c r : PConnection)
    → IsByte id
    → IsByte (length argv)
    → All Fits argv
    → request_bytes (record { id = id; argc = length argv }) argv ≡ some bytes
    → IsUword (length bytes)
    → c.device.allocs ≡ []
    → HeaderWhole c.device.writes
    → r.device.selects ≡ []
    → r.device.allocs ≡ []
    → HeaderWhole r.device.reads
    → r.device.input ≡ wire (next_number c) bytes ++ rest
    → Puts
        (wire (next_number c) bytes)
        (numbered (cleared c))
        (dlp_send_req netsync_transport (record { id = id; argc = length argv }) argv c)
      × Delivers
          (with_argv (length argv) (heard (next_number c % 2 ^ 8) r))
          (record { id = id; argc = length argv }, argv)
          rest
          (dlp_recv_req netsync_transport r)
netsync_carries_request id argv bytes rest c r b k f laid_out short ca cw rsel ra rr input = (
  dlp_send_req_netsync id argv bytes c laid_out short ca cw,
  finish (
      netsync_read_lem 1 (next_number c % 2 ^ 8) bytes rest r (omega (arith, short)) rsel ra rr
        (input ∙ append_assoc (net_header 1 (next_number c % 2 ^ 8) (length bytes)) bytes rest)),
)
  where
    finish :
        Delivers (heard (next_number c % 2 ^ 8) r) (packet bytes) rest (netsync_read r)
        → Delivers
            (with_argv (length argv) (heard (next_number c % 2 ^ 8) r))
            (record { id = id; argc = length argv }, argv)
            rest
            (dlp_recv_req netsync_transport r)
    finish (rs, w, done) = (
      rs,
      w,
      dlp_recv_req-request_bytes netsync_transport id argv bytes r _ b k f laid_out
          (netsync_read-Brings 1 (next_number c % 2 ^ 8) bytes rest r rs short ra done),
    )
