-- ===== src/Rpc/Packet.antt =====
-- libpconn/dlp_rpc.c: the bytes of a remote call, and what of its answer is copied back.
use coldsync.Base.{ℕ, zero, suc, ◌+◌, ◌==◌, ltb, if◌then◌else◌, bit_and, Bool}
use coldsync.Base.{Option, none, some, List, [], ◌∷◌, ◌++◌, length, take, drop}
use coldsync.Base.Maybe.{◌>>=◌}
use coldsync.Bytes.{get_ubyte, get_uword, get_udword, put_ubyte, put_uword, put_udword}
use coldsync.Cmd.Memory.{memcpy}

pub data ParamData : Type 0 where
  raw_v : ParamData
  bool_v byte_v word_v dword_v : ℕ → ParamData

-- `struct DLPRPC_param`; `size` is a `ubyte` that only raw data needs.
pub record DlpRpcParam : Type 0 where
  pub byref : Bool
  pub size : ℕ
  pub data_of : ParamData
  pub target : List ℕ

put_bool : List ℕ → Bool → List ℕ
put_bool wptr b = put_ubyte wptr (if b then 1 else 0)

-- One byte more after an odd number of them.
unfoldable pub pad : List ℕ → ℕ → List ℕ
pad wptr size = if bit_and size 1 == 1 then put_ubyte wptr 0 else wptr

put_data : List ℕ → DlpRpcParam → ParamData → Option (List ℕ)
unfolding pad
put_data wptr param raw_v =
    if ltb (length param.target) param.size
    then none
    else some (pad (put_ubyte wptr param.size ++ take param.size param.target) param.size)
put_data wptr param (bool_v b) = some (put_ubyte (put_ubyte (put_ubyte wptr 1) b) 0)
put_data wptr param (byte_v b) = some (put_ubyte (put_ubyte (put_ubyte wptr 1) b) 0)
put_data wptr param (word_v w) = some (put_uword (put_ubyte wptr 2) w)
put_data wptr param (dword_v d) = some (put_udword (put_ubyte wptr 4) d)

put_params : List ℕ → List DlpRpcParam → Option (List ℕ)
unfolding put_data put_bool
put_params wptr [] = some wptr
put_params wptr (param ∷ argv) = do
  wptr ← put_data (put_bool wptr param.byref) param param.data_of
  put_params wptr argv

-- The buffer has 4096 bytes.
fits_outbuf : List ℕ → Option (List ℕ)
fits_outbuf bytes = if ltb 4096 (length bytes) then none else some bytes

unfoldable pub call_bytes : ℕ → ℕ → ℕ → List DlpRpcParam → Option (List ℕ)
unfolding put_params fits_outbuf
call_bytes trap d0 a0 argv =
    let header = put_ubyte (put_ubyte (put_ubyte (put_ubyte [] 0x2d) 1) 0x0a) 0 in
    let registers = put_udword (put_udword (put_uword header trap) d0) a0 in
    put_params (put_uword registers (length argv)) argv >>= fits_outbuf

-- The bytes go to where `raw_v` points.
copy_raw : ℕ → List ℕ → DlpRpcParam → ParamData → Option (DlpRpcParam × List ℕ)
unfolding memcpy
copy_raw arg_len rptr param raw_v = do
  target ← memcpy param.target rptr arg_len
  some (record param { target = target }, drop (arg_len + bit_and arg_len 1) rptr)
copy_raw arg_len rptr param _ = none

-- What came back for a parameter goes where its length, not its type, says.
unfoldable pub copy_back : ℕ → List ℕ → DlpRpcParam → Option (DlpRpcParam × List ℕ)
unfolding copy_raw
copy_back arg_len rptr param =
    if arg_len == 1
    then (do
      (b, rptr) ← get_ubyte rptr
      (padding, rptr) ← get_ubyte rptr
      some (record param { data_of = byte_v b }, rptr))
    else if arg_len == 2
    then (do (w, rptr) ← get_uword rptr; some (record param { data_of = word_v w }, rptr))
    else if arg_len == 4
    then (do (d, rptr) ← get_udword rptr; some (record param { data_of = dword_v d }, rptr))
    else copy_raw arg_len rptr param param.data_of

-- One parameter of the answer, for the first of `argv`.
get_param : ℕ → ℕ → List ℕ → List DlpRpcParam → Option (List DlpRpcParam × List ℕ)
unfolding copy_back
get_param byref arg_len rptr [] =
    if byref == 0 then some ([], drop (arg_len + bit_and arg_len 1) rptr) else none
get_param byref arg_len rptr (param ∷ argv) =
    if byref == 0
    then some (param ∷ [], drop (arg_len + bit_and arg_len 1) rptr)
    else (do (param, rptr) ← copy_back arg_len rptr param; some (param ∷ [], rptr))

-- The parameters of the answer, as many as it says, for those of the call from the first on.
unfoldable pub get_params : ℕ → List ℕ → List DlpRpcParam → Option (List DlpRpcParam)
unfolding get_param
get_params zero rptr argv = some argv
get_params (suc n) rptr argv = do
  (byref, rptr) ← get_ubyte rptr
  (arg_len, rptr) ← get_ubyte rptr
  (params, rptr) ← get_param byref arg_len rptr argv
  rest ← get_params n rptr (drop 1 argv)
  some (params ++ rest)

-- What a call returns: the registers, and the parameters.
pub record RpcReturn : Type 0 where
  pub d0 : ℕ
  pub a0 : ℕ
  pub argv : List DlpRpcParam

-- The headers of the answer are not examined, but for the number of parameters.
unfoldable pub get_return : List ℕ → List DlpRpcParam → Option RpcReturn
unfolding get_params
get_return rptr argv = do
  (id, rptr) ← get_ubyte rptr
  (argc, rptr) ← get_ubyte rptr
  (dlp_err, rptr) ← get_uword rptr
  (reqno, rptr) ← get_ubyte rptr
  (padding, rptr) ← get_ubyte rptr
  (trap, rptr) ← get_uword rptr
  (d0, rptr) ← get_udword rptr
  (a0, rptr) ← get_udword rptr
  (ret_argc, rptr) ← get_uword rptr
  argv ← get_params ret_argc rptr argv
  some (record { d0 = d0; a0 = a0; argv = argv })
