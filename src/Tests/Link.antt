-- ===== src/Tests/Link.antt =====
-- The theorems on the device, on packets and on fragments, at concrete inputs.
use coldsync.Base.{true, false}
use coldsync.Conn.{err}
use coldsync.Base.{
  ℕ, ◌-◌, ◌≡◌, refl, arith, List, [], ◌∷◌, ◌++◌, length, take, replicate, length-replicate,
}
use coldsync.Conn.{PConnection, Reply, ok}
use coldsync.Conn.Ends.{EndsAt}
use coldsync.Conn.Reading.{Willing}
use coldsync.Slp.{slp_read, slp_write, packet_bytes}
use coldsync.Slp.Accept.{Accepted, slp_read_sound}
use coldsync.Slp.RoundTrip.{Returns, header_of, slp_read-packet_bytes}
use coldsync.Slp.Writing.{own_packet, sent, slp_write_lem, slp_write_wraps}
use coldsync.Padp.{PadpHeader, fragtype_data}
use coldsync.Padp.Read.{padp_read}
use coldsync.Padp.Write.{send_frag}
use coldsync.Padp.Stream.{stream}
use coldsync.Padp.Whole.{Whole}
use coldsync.Padp.Messages.{padp_read-stream}
use coldsync.Padp.Timeout.{given_up, send_frag_times_out}
use coldsync.Padp.Frag.{padp_rx_frag, padp_ack}
use coldsync.Padp.Calm
use coldsync.Padp.Calm.{Calm}
use coldsync.Padp.Fragments.{Received, frag_packet, padp_rx_frag_lem}
use coldsync.Padp.Acks.{Acked, padp_ack_lem}
use coldsync.Tests.Samples.{dlp_addr, connection_with}

abbrev bytes : List ℕ
bytes = 0xbe ∷ 0xef ∷ 1 ∷ []

abbrev packet_in : PConnection
packet_in = connection_with (packet_bytes dlp_addr dlp_addr 7 bytes ++ (9 ∷ []))

slp_read-packet_bytes_example :
    Returns packet_in (header_of dlp_addr dlp_addr 7 3) bytes (9 ∷ []) (slp_read packet_in)
slp_read-packet_bytes_example =
    slp_read-packet_bytes packet_in dlp_addr dlp_addr 7 bytes (9 ∷ []) tt refl
      (record {
        protocol = refl;
        port = refl;
        protocol_byte = omega arith;
        port_byte = omega arith;
      })
      (omega arith) (omega arith) refl

slp_read_sound_example : EndsAt (Accepted packet_in) (slp_read packet_in)
slp_read_sound_example = slp_read_sound packet_in

slp_write_lem_example :
    (ws : List Reply) × Willing ws
    × (slp_write bytes (connection_with [])
        ≡ (ok 3, sent 3 (own_packet bytes (connection_with [])) ws (connection_with [])))
slp_write_lem_example = slp_write_lem bytes (connection_with []) tt refl (omega arith)

abbrev huge : List ℕ
huge = replicate 65530 1

slp_write_wraps_example :
    (ws : List Reply) × Willing ws
    × (slp_write huge (connection_with []) ≡ (
      ok (length huge),
      sent
          (length huge)
          (take (length huge - 65524) (own_packet huge (connection_with [])))
          ws
          (connection_with []),
    ))
slp_write_wraps_example =
    slp_write_wraps huge (connection_with []) tt refl
      (omega (arith, length-replicate {A = ℕ} 65530 1))
      (omega (arith, length-replicate {A = ℕ} 65530 1))

abbrev header : PadpHeader
header = record { type = fragtype_data; flags = 0xc0; size = 3 }

abbrev frag_in : PConnection
frag_in = connection_with (frag_packet dlp_addr dlp_addr 7 header bytes ++ (9 ∷ []))

abbrev is_calm : (input : List ℕ) → Calm (connection_with input)
is_calm input = record { reads = tt; writes = tt; selects = refl; allocs = refl }

padp_rx_frag_lem_example :
    Calm.Returns (Received frag_in dlp_addr 7 header bytes (9 ∷ [])) (padp_rx_frag frag_in)
padp_rx_frag_lem_example =
    padp_rx_frag_lem frag_in dlp_addr dlp_addr 7 header bytes (9 ∷ []) (is_calm _)
      (record {
        protocol = refl;
        port = refl;
        protocol_byte = omega arith;
        port_byte = omega arith;
      })
      (record { type = omega arith; flags = omega arith; size = omega arith }) (omega arith)
      (omega arith) refl

padp_ack_lem_example :
    Calm.Returns (Acked (connection_with []) 3) (padp_ack 0xc0 3 (connection_with []))
padp_ack_lem_example = padp_ack_lem (connection_with []) 0xc0 3 (is_calm []) (omega arith)

abbrev stream_in : PConnection
stream_in = connection_with (stream 3 dlp_addr dlp_addr 7 3 0 bytes ++ (9 ∷ []))

padp_read-stream_example :
    Calm.Returns (Whole stream_in dlp_addr 7 3 0 3 bytes bytes (9 ∷ [])) (padp_read stream_in)
padp_read-stream_example =
    padp_read-stream stream_in dlp_addr dlp_addr 7 bytes (9 ∷ []) (is_calm _)
      (record {
        protocol = refl;
        port = refl;
        protocol_byte = omega arith;
        port_byte = omega arith;
      })
      (omega arith) (omega arith) (omega arith) refl

abbrev busy : PConnection
busy = record (connection_with []) {
  device = record (connection_with []).device { selects = replicate 10 false ++ (true ∷ []) };
}

send_frag_times_out_example : send_frag 10 1 header bytes busy ≡ (err, given_up (true ∷ []) busy)
send_frag_times_out_example = send_frag_times_out 10 0 header bytes (true ∷ []) busy refl
