-- ===== src/Tests/Net.antt =====
-- The theorems on NetSync, at concrete inputs, and the packets that open a connection.
use coldsync.Base.{
  ℕ, ◌%◌, ◌^◌, ◌≡◌, refl, arith, true, false, replicate, length, take, ◌-◌, length-replicate, List,
  [], ◌∷◌, ◌++◌,
}
use coldsync.Conn.{PConnection, upto, ok, err}
use coldsync.Conn.Reading.{Delivers}
use coldsync.Conn.Writing.{Puts}
use coldsync.Dlp.{dlp_send_req, dlp_recv_req, dlp_dlpc_req}
use coldsync.Dlp.RoundTrip.{with_argv}
use coldsync.Cmd.Answers.{the_arg}
use coldsync.NetSync.{netsync_read, netsync_write, netsync_transport}
use coldsync.NetSync.Ritual.{
  ritual_exch_server, ritual_resp1, ritual_resp2, ritual_resp3, ritual_stmt2, ritual_stmt3,
}
use coldsync.NetSync.Reading.{net_header, packet, heard, netsync_read_lem}
use coldsync.NetSync.Writing.{next_number, numbered, wire}
use coldsync.NetSync.Carries.{cleared, netsync_carries_request}
use coldsync.NetSync.AtOnce.{packet_out, netsync_write_wraps}
use coldsync.NetSync.Silent.{gave_up, dlp_dlpc_req_silent}
use coldsync.Tests.Commands.{here, deletion, deletion_laid_out}

-- A device that lets a header pass at one go, and cuts up what follows it.
abbrev pub over_net : List ℕ → PConnection
over_net input = record here {
  device = record here.device {
    input = input;
    reads = upto 5 ∷ upto 0 ∷ [];
    writes = upto 7 ∷ upto 1 ∷ [];
  };
  whosonfirst = true;
}

netsync_read_lem_example :
    Delivers
      (heard 9 (over_net (net_header 1 9 2 ++ (5 ∷ 6 ∷ 7 ∷ []))))
      (packet (5 ∷ 6 ∷ []))
      (7 ∷ [])
      (netsync_read (over_net (net_header 1 9 2 ++ (5 ∷ 6 ∷ 7 ∷ []))))
netsync_read_lem_example =
    netsync_read_lem 1 9 (5 ∷ 6 ∷ []) (7 ∷ []) (over_net (net_header 1 9 2 ++ (5 ∷ 6 ∷ 7 ∷ [])))
      (omega arith) refl refl (omega arith, tt) refl

abbrev request : List ℕ
request = 0x22 ∷ 1 ∷ 0x20 ∷ 6 ∷ deletion

abbrev receiver : PConnection
receiver = over_net (wire 0xfe request ++ (7 ∷ []))

netsync_carries_request_example :
    Puts (wire (next_number (over_net [])) request) (numbered (cleared (over_net []))) (
      dlp_send_req netsync_transport
        (record { id = 0x22; argc = 1 })
        (the_arg deletion)
        (over_net []))
    × Delivers
        (with_argv 1 (heard (0xfe % 2 ^ 8) receiver))
        (record { id = 0x22; argc = 1 }, the_arg deletion)
        (7 ∷ [])
        (dlp_recv_req netsync_transport receiver)
netsync_carries_request_example =
    netsync_carries_request 0x22 (the_arg deletion) request (7 ∷ []) (over_net []) receiver
      (omega arith) (omega arith) (record { id = omega arith; size = omega arith }, tt)
      deletion_laid_out (omega arith) refl (omega arith, tt) refl refl (omega arith, tt) refl

-- A device that takes everything, and brings nothing.
abbrev quiet : PConnection
quiet = record here {
  device = record here.device { writes = []; selects = replicate 5 false ++ (true ∷ []) };
}

dlp_dlpc_req_silent_example :
    dlp_dlpc_req netsync_transport (record { id = 0x22; argc = 1 }) (the_arg deletion) quiet
    ≡ (err, gave_up 5 request (true ∷ []) quiet)
dlp_dlpc_req_silent_example =
    dlp_dlpc_req_silent (record { id = 0x22; argc = 1 }) (the_arg deletion) request
      deletion_laid_out (omega arith) (true ∷ []) quiet refl refl refl

abbrev too_long : List ℕ
too_long = replicate 65537 7

netsync_write_wraps_example :
    netsync_write too_long quiet
    ≡ (ok tt, packet_out (take (length too_long - 65536) too_long) quiet)
netsync_write_wraps_example =
    netsync_write_wraps too_long quiet (omega (arith, length-replicate {A = ℕ} 65537 7))
      (omega (arith, length-replicate {A = ℕ} 65537 7)) refl

-- A device that lets everything pass.
abbrev plain : List ℕ → PConnection
plain input = record here { device = record here.device { input = input; reads = []; writes = [] } }

-- The packets of the other side, the first of them without a header.
abbrev client_packets : List ℕ
client_packets =
    ritual_resp1 ++ (net_header 1 1 50 ++ (ritual_resp2 ++ (net_header 1 2 8 ++ ritual_resp3)))

ritual_exch_server_runs : (ritual_exch_server (plain client_packets)).0 ≡ ok tt
unfolding ritual_exch_server coldsync.NetSync.netsync_read_method
    coldsync.Conn.Calls.pconn_timedselect coldsync.Conn.Calls.pconn_read coldsync.Bytes.get_ubyte
    coldsync.Bytes.get_udword coldsync.Conn.Calls.allocate netsync_write
    coldsync.Conn.Calls.pconn_write coldsync.Conn.Calls.write_all netsync_read
    coldsync.Bytes.put_udword coldsync.Bytes.put_ubyte coldsync.Bytes.uword_many
ritual_exch_server_runs = refl

ritual_exch_server_sends :
    (ritual_exch_server (plain client_packets)).1.device.output
    ≡ wire 0xff ritual_stmt2 ++ wire 1 ritual_stmt3
unfolding ritual_exch_server coldsync.NetSync.netsync_read_method
    coldsync.Conn.Calls.pconn_timedselect coldsync.Conn.Calls.pconn_read coldsync.Bytes.get_ubyte
    coldsync.Bytes.get_udword coldsync.Conn.Calls.allocate netsync_write
    coldsync.Conn.Calls.pconn_write coldsync.Conn.Calls.write_all netsync_read
    coldsync.Bytes.put_udword coldsync.Bytes.put_ubyte coldsync.Bytes.uword_many
ritual_exch_server_sends = refl
