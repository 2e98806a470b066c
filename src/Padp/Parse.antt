-- ===== src/Padp/Parse.antt =====
-- The header of a fragment that came in.
use coldsync.Base.{ℕ, ◌+◌, ◌-◌, ◌%◌, ◌^◌, Option, some, List}
use coldsync.Base.Maybe.{◌>>=◌}
use coldsync.Bytes.{get_ubyte, get_uword}
use coldsync.Slp.{Packet}
use coldsync.Padp.{PadpHeader, padp_header_len}

-- What `padp_rx_frag` hands to its caller: the header, the buffer behind it, and the length.
pub record Frag : Type 0 where
  pub header : PadpHeader
  pub buf : List ℕ
  pub len : ℕ

-- The header's bytes are read from the buffer, however long the packet was; the length of what
-- follows is a uword, which wraps below a packet of four bytes.
unfoldable pub parse_frag : Packet → Option Frag
unfolding get_ubyte get_uword
parse_frag p = do
  (type, buf) ← get_ubyte p.buf
  (flags, buf) ← get_ubyte buf
  (size, buf) ← get_uword buf
  some (record {
    header = record { type = type; flags = flags; size = size };
    buf = buf;
    len = (p.len + 2 ^ 16 - padp_header_len) % 2 ^ 16;
  })
