-- ===== src/Cmp/Laws.antt =====
-- What `cmp_write` builds is what `cmp_read` parses.
use coldsync.Base.{ℕ, ◌%◌, ◌≡◌, ap, ◌∙◌, arith, Option, some, none, List, ◌++◌}
use coldsync.Bytes.{IsByte, IsUdword}
use coldsync.Bytes.Laws.{put_ubyte_lem, put_uword_lem, put_udword_lem, get-udword_bytes}
use coldsync.Cmp.Packet.{CmpPacket, parse_packet, build_packet}

-- The fields have the widths that their types give them.
pub record Fits (p : CmpPacket) : Type 0 where
  pub type : IsByte p.type
  pub flags : IsByte p.flags
  pub ver_major : IsByte p.ver_major
  pub ver_minor : IsByte p.ver_minor
  pub rate : IsUdword p.rate

byte_lem : {b : ℕ} → IsByte b → b % 256 ≡ b
byte_lem h = omega arith

-- A CMP packet whose fields have their widths is read back from its bytes, whatever follows them, with
-- its reserved word cleared.
pub parse_packet-build_packet :
    (p : CmpPacket) (rest : List ℕ)
    → Fits p
    → parse_packet (build_packet p ++ rest) ≡ some (record p { reserved = 0 })
unfolding parse_packet build_packet
parse_packet-build_packet p rest f =
    simp (put_ubyte_lem, put_uword_lem, put_udword_lem)
      (ap (λ (r : Option (ℕ × List ℕ)). fields_of r) (get-udword_bytes p.rate rest f.rate)
        ∙ rw (byte_lem f.type, byte_lem f.flags, byte_lem f.ver_major, byte_lem f.ver_minor))
  where
    fields_of : Option (ℕ × List ℕ) → Option CmpPacket
    fields_of none = none
    fields_of (some (rate, rptr)) = some (record {
      type = p.type % 256;
      flags = p.flags % 256;
      ver_major = p.ver_major % 256;
      ver_minor = p.ver_minor % 256;
      reserved = 0;
      rate = rate;
    })
