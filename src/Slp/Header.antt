-- ===== src/Slp/Header.antt =====
-- The SLP header: its bytes, its parts and its checksum.
use coldsync.Base.{ℕ, ◌+◌, ◌%◌, ◌^◌, Option, some, List, [], ◌∷◌}
use coldsync.Base.Maybe.{◌>>=◌}
use coldsync.Bytes.{get_ubyte, get_uword, put_ubyte, put_uword}

-- `struct slp_header`
pub record SlpHeader : Type 0 where
  pub dest : ℕ
  pub src : ℕ
  pub type : ℕ
  pub size : ℕ
  pub xid : ℕ
  pub checksum : ℕ

-- The bytes behind the preamble, in the order in which they stand.
unfoldable pub parse_header : List ℕ → Option SlpHeader
unfolding get_ubyte get_uword
parse_header buf = do
  (dest, buf) ← get_ubyte buf
  (src, buf) ← get_ubyte buf
  (type, buf) ← get_ubyte buf
  (size, buf) ← get_uword buf
  (xid, buf) ← get_ubyte buf
  (checksum, buf) ← get_ubyte buf
  some (record { dest = dest; src = src; type = type; size = size; xid = xid; checksum = checksum })

-- `checksum += byte` in a ubyte, over the preamble and the header but its last byte.
unfoldable pub sum_bytes : ℕ → List ℕ → ℕ
sum_bytes sum [] = sum
sum_bytes sum (b ∷ bytes) = sum_bytes ((sum + b) % 2 ^ 8) bytes

-- The header of an outgoing packet, before its checksum.
unfoldable pub put_header : List ℕ → ℕ → ℕ → ℕ → ℕ → ℕ → List ℕ
put_header buf dest src type size xid =
    put_ubyte (put_uword (put_ubyte (put_ubyte (put_ubyte buf dest) src) type) size) xid
