-- ===== src/Dlp/Packet.antt =====
-- libpconn/dlp.c and include/pconn/dlp.h: the bytes of requests and responses. The size of an argument
-- is the length of its data.
use coldsync.Base.{ℕ, zero, suc, ◌+◌, ◌==◌, leb, if◌then◌else◌, bit_and, bit_or}
use coldsync.Base.{Option, none, some, List, [], ◌∷◌, ◌++◌, length, take, drop}
use coldsync.Base.Maybe.{◌>>=◌}
use coldsync.Bytes.{get_ubyte, get_uword, get_udword, peek_ubyte, put_ubyte, put_uword, put_udword}
use coldsync.Conn.{DlpRespHeader}

abbrev dlp_tinyarg_maxlen : ℕ
dlp_tinyarg_maxlen = 0xff

abbrev dlp_smallarg_maxlen : ℕ
dlp_smallarg_maxlen = 0xffff

-- `struct dlp_req_header`
pub record DlpReqHeader : Type 0 where
  pub id : ℕ
  pub argc : ℕ

-- `struct dlp_arg`
pub record DlpArg : Type 0 where
  pub id : ℕ
  pub payload : List ℕ

-- The length of the bytes of the first `argc` arguments.
unfoldable pub args_len : ℕ → List DlpArg → ℕ
args_len zero argv = 0
args_len (suc argc) [] = 0
args_len (suc argc) (arg ∷ argv) =
    let size = length arg.payload in
    (if leb size dlp_tinyarg_maxlen
      then 2 + size
      else if leb size dlp_smallarg_maxlen
      then 4 + size
      else 6 + size)
    + args_len argc argv

-- The header of an argument: tiny, small or long.
unfoldable pub put_arg_header : List ℕ → ℕ → ℕ → List ℕ
put_arg_header wptr id size =
    if leb size dlp_tinyarg_maxlen
    then put_ubyte (put_ubyte wptr (bit_and id 0x3f)) size
    else if leb size dlp_smallarg_maxlen
    then put_uword (put_ubyte (put_ubyte wptr (bit_or (bit_and id 0x3f) 0x80)) 0) size
    else put_udword (put_uword wptr (bit_or (bit_and id 0x3fff) 0xc000)) size

-- The loop over `argc` arguments; `none` where there are fewer.
unfoldable pub put_args : ℕ → List ℕ → List DlpArg → Option (List ℕ)
unfolding put_arg_header
put_args zero wptr argv = some wptr
put_args (suc argc) wptr [] = none
put_args (suc argc) wptr (arg ∷ argv) =
    put_args argc (put_arg_header wptr arg.id (length arg.payload) ++ arg.payload) argv

unfoldable pub request_bytes : DlpReqHeader → List DlpArg → Option (List ℕ)
unfolding put_args
request_bytes header argv =
    put_args header.argc (put_ubyte (put_ubyte [] header.id) header.argc) argv

unfoldable pub response_bytes : DlpRespHeader → List DlpArg → Option (List ℕ)
unfolding put_args
response_bytes header argv =
    put_args header.argc
      (put_uword (put_ubyte (put_ubyte [] (bit_or header.id 0x80)) header.argc) header.error) argv

-- Identifier and size of an argument, by the two high bits of its first byte.
get_long : List ℕ → Option (ℕ × ℕ × List ℕ)
get_long rptr = do
  (id, rptr) ← get_uword rptr
  (size, rptr) ← get_udword rptr
  some (bit_and id 0x3f, size, rptr)

get_small : List ℕ → Option (ℕ × ℕ × List ℕ)
get_small rptr = do
  (id, rptr) ← get_ubyte rptr
  (padding, rptr) ← get_ubyte rptr
  (size, rptr) ← get_uword rptr
  some (bit_and id 0x3f, size, rptr)

get_tiny : List ℕ → Option (ℕ × ℕ × List ℕ)
get_tiny rptr = do
  (id, rptr) ← get_ubyte rptr
  (size, rptr) ← get_ubyte rptr
  some (bit_and id 0x3fff, size, rptr)

unfoldable pub get_arg_header : List ℕ → Option (ℕ × ℕ × List ℕ)
unfolding get_long get_small get_tiny
get_arg_header rptr = do
  first ← peek_ubyte rptr
  if bit_and first 0xc0 == 0xc0
      then get_long rptr
      else if bit_and first 0xc0 == 0x80
      then get_small rptr
      else get_tiny rptr

-- The loop over `argc` arguments. The data stays in the buffer, and a size past its end is not noticed
-- here: `payload` is what the buffer has of it.
unfoldable pub get_args : ℕ → List ℕ → Option (List DlpArg)
unfolding get_arg_header
get_args zero rptr = some []
get_args (suc argc) rptr = do
  (id, size, rptr) ← get_arg_header rptr
  argv ← get_args argc (drop size rptr)
  some (record { id = id; payload = take size rptr } ∷ argv)

unfoldable pub get_req_header : List ℕ → Option (DlpReqHeader × List ℕ)
get_req_header inbuf = do
  (id, rptr) ← get_ubyte inbuf
  (argc, rptr) ← get_ubyte rptr
  some (record { id = id; argc = argc }, rptr)

unfoldable pub get_resp_header : List ℕ → Option (DlpRespHeader × List ℕ)
get_resp_header inbuf = do
  (id, rptr) ← get_ubyte inbuf
  (argc, rptr) ← get_ubyte rptr
  (error, rptr) ← get_uword rptr
  some (record { id = id; argc = argc; error = error }, rptr)
