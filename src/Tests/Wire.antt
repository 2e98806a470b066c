-- ===== src/Tests/Wire.antt =====
-- The theorems on numbers, CRC and packets, at concrete inputs.
use coldsync.Base.{ℕ, ◌≡◌, ◌≢◌, arith, some, List, [], ◌∷◌, ◌++◌}
use coldsync.Crc.{crc16}
use coldsync.Crc.Reference.{register, crc16-eq-register}
use coldsync.Crc.Detection.{crc16_burst}
use coldsync.Cmp.Packet.{CmpPacket, parse_packet, build_packet}
use coldsync.Cmp.Laws.{parse_packet-build_packet}

abbrev sample : List ℕ
sample = 0xbe ∷ 0xef ∷ 0xed ∷ 3 ∷ []

crc16-eq-register_example : crc16 sample 0x1d0f ≡ register sample 0x1d0f
crc16-eq-register_example = crc16-eq-register sample 0x1d0f (omega arith) (omega arith)

crc16_burst_example : crc16 (sample ++ (1 ∷ 2 ∷ sample)) 0 ≢ crc16 (sample ++ (1 ∷ 3 ∷ sample)) 0
crc16_burst_example =
    crc16_burst sample sample 1 2 1 3 0 (omega arith) (omega arith) (omega arith) (omega arith)
      (λ (p, q). omega (arith, q))

abbrev wakeup : CmpPacket
wakeup = record { type = 1; flags = 0; ver_major = 1; ver_minor = 1; reserved = 5; rate = 57600 }

parse_packet-build_packet_example :
    parse_packet (build_packet wakeup ++ sample) ≡ some (record wakeup { reserved = 0 })
parse_packet-build_packet_example = parse_packet-build_packet wakeup sample (record {
  type = omega arith;
  flags = omega arith;
  ver_major = omega arith;
  ver_minor = omega arith;
  rate = omega arith;
})
