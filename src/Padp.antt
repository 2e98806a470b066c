-- ===== src/Padp.antt =====
-- libpconn/padp.c: the Packet Assembly/Disassembly Protocol. Messages travel in fragments of at most
-- 1024 bytes, and each fragment is acknowledged.
pub mod Parse
pub mod Calm
pub mod Fragments
pub mod Acks
pub mod Stream
pub mod Copying
pub mod Reassembly
pub mod Whole
pub mod Messages
pub mod Timeout
pub mod Frag
pub mod Read
pub mod Write
use coldsync.Base.{ℕ, ◌+◌, ◌%◌, ◌^◌, ◌==◌, if◌then◌else◌, Bool, ◌||◌, none}
use coldsync.Conn.{PConnection, noerr}
use coldsync.Conn.Monad.{M, modify}

abbrev pub padp_header_len : ℕ
padp_header_len = 4

abbrev pub padp_max_packet_len : ℕ
padp_max_packet_len = 1024

abbrev pub padp_max_retries : ℕ
padp_max_retries = 10

abbrev padp_wait_timeout : ℕ
padp_wait_timeout = 30

-- `padp_frag_t`
abbrev pub fragtype_data : ℕ
fragtype_data = 1

abbrev pub fragtype_ack : ℕ
fragtype_ack = 2

abbrev pub fragtype_nak : ℕ
fragtype_nak = 3

abbrev pub fragtype_tickle : ℕ
fragtype_tickle = 4

abbrev pub fragtype_abort : ℕ
fragtype_abort = 8

abbrev pub flag_last : ℕ
flag_last = 0x40

abbrev pub flag_first : ℕ
flag_first = 0x80

-- `struct padp_header`
pub record PadpHeader : Type 0 where
  pub type : ℕ
  pub flags : ℕ
  pub size : ℕ

-- The next transaction number: 0x00 and 0xff are reserved.
unfoldable pub next_xid : ℕ → ℕ
next_xid xid = let next = (xid + 1) % 2 ^ 8 in if next == 0xff || next == 0x00 then 0x01 else next

unfoldable pub bump_xid : M (Unit {0})
unfolding next_xid
bump_xid = modify (λ c. record c { padp = record c.padp { xid = next_xid c.padp.xid } })

-- The functions that DLP calls are set here too: the model's DLP takes them as an argument.
unfoldable padp_init : M (Unit {0})
padp_init = modify (λ c. record c {
  padp = record c.padp { read_timeout = padp_wait_timeout; inbuf = none; inbuf_len = 0 };
})
