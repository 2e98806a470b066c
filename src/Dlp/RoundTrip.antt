-- ===== src/Dlp/RoundTrip.antt =====
-- Requests and responses that arrive as they were sent.
use coldsync.Base.{
  ℕ, ◌+◌, ◌%◌, ◌<◌, ◌*◌, ◌/◌, ◌≡◌, ap, sym, ◌∙◌, arith, ltb, ◌==◌, false, ==_refl, Bool-cases, inl,
  inr, bit_and, if◌then◌else◌,
}
use coldsync.Base.{Option, some, none, List, [], ◌∷◌, ◌++◌, length, All}
use coldsync.Base.Bits.Masks.{bit_and_low, bit_and_field, bit_or_high}
use mathlib.Core.Path.{ap₂}
use coldsync.Bytes.{IsByte, IsUword, get_ubyte, put_ubyte}
use coldsync.Bytes.Laws.{uword_bytes, put_uword_lem, get_uword_lem}
use coldsync.Conn.{PConnection, ok}
use coldsync.Conn.Monad.{◌>>=◌, pure, bind_ok, in_bounds}
use coldsync.Conn.Calls.{allocate, allocate_lem}
use coldsync.Dlp.Packet.{DlpArg, request_bytes, response_bytes, get_req_header, get_resp_header}
use coldsync.Dlp.Args.{Fits, args_bytes, put_args_lem, get_args_lem}
use coldsync.Slp
use coldsync.Dlp.{
  Transport, read_message, grow_argv, receive_args, check_response, dlp_recv_req, dlp_recv_resp,
}

abbrev pub with_argv : ℕ → PConnection → PConnection
with_argv argc c = record c {
  dlp = record c.dlp { argv_len = if ltb c.dlp.argv_len argc then argc else c.dlp.argv_len };
}

-- The bytes of a request, and what follows them in the buffer, come in.
pub record Brings (transport : Transport) (bytes : List ℕ) (c c' : PConnection) : Type 0 where
  pub rest : List ℕ
  pub result : transport.read c ≡ (ok (record { buf = bytes ++ rest; len = length bytes }), c')
  pub allocs : c'.device.allocs ≡ []

pub read_message_lem :
    (transport : Transport) {packet : Slp.Packet} {c c' : PConnection}
    → transport.read c ≡ (ok packet, c')
    → read_message transport c ≡ (ok packet, c')
unfolding read_message
read_message_lem transport e = rw e

grow_argv_lem :
    (transport : Transport) (argc : ℕ) (c : PConnection)
    → c.device.allocs ≡ []
    → grow_argv transport argc c ≡ (ok tt, with_argv argc c)
unfolding grow_argv
grow_argv_lem transport argc c a = elim (Bool-cases (ltb c.dlp.argv_len argc)) [
  | inl small ↦ rw small (bind_ok allocate _ (allocate_lem c a))
  | inr large ↦ rw large
]

receive_args_lem :
    {A : Type 0} (transport : Transport) (header : A) (argv : List DlpArg) (rest : List ℕ)
    (c : PConnection)
    → c.device.allocs ≡ []
    → All Fits argv
    → receive_args transport header (length argv) (args_bytes argv ++ rest) c
      ≡ (ok (header, argv), with_argv (length argv) c)
unfolding receive_args
receive_args_lem transport header argv rest c a f =
    bind_ok (grow_argv transport (length argv)) _ (grow_argv_lem transport (length argv) c a)
    ∙ ap
        (λ (o : Option (List DlpArg)).
          (in_bounds o >>= λ (argv' : List DlpArg). pure (header, argv'))
            (with_argv (length argv) c))
        (get_args_lem argv rest f)

abbrev bytes_of : Option (List ℕ) → List ℕ
bytes_of none = []
bytes_of (some bytes) = bytes

pub request_bytes_lem :
    (id : ℕ) (argv : List DlpArg)
    → IsByte id
    → IsByte (length argv)
    → All Fits argv
    → request_bytes (record { id = id; argc = length argv }) argv
      ≡ some (id ∷ length argv ∷ args_bytes argv)
unfolding request_bytes put_ubyte
request_bytes_lem id argv b k f =
    put_args_lem argv _ f
    ∙ ap₂ (λ (x y : ℕ). some (x ∷ y ∷ args_bytes argv)) (omega (arith, b)) (omega (arith, k))

-- A request whose identifier and number of arguments are bytes, and whose arguments have identifiers
-- of six bits and sizes of 32, arrives as it was sent: over a transport that brings its bytes,
-- `dlp_recv_req` returns header and arguments, and there is room for them in the connection.
pub dlp_recv_req-request_bytes :
    (transport : Transport) (id : ℕ) (argv : List DlpArg) (bytes : List ℕ) (c c' : PConnection)
    → IsByte id
    → IsByte (length argv)
    → All Fits argv
    → request_bytes (record { id = id; argc = length argv }) argv ≡ some bytes
    → Brings transport bytes c c'
    → dlp_recv_req transport c
      ≡ (ok (record { id = id; argc = length argv }, argv), with_argv (length argv) c')
unfolding dlp_recv_req get_req_header get_ubyte
dlp_recv_req-request_bytes transport id argv bytes c c' b k f e brings =
    bind_ok (read_message transport) _ (read_message_lem transport brings.result)
    ∙ rw laid_out (
        receive_args_lem transport (record { id = id; argc = length argv }) argv brings.rest c'
          brings.allocs f)
  where
    laid_out : bytes ≡ id ∷ length argv ∷ args_bytes argv
    laid_out = sym (ap bytes_of e) ∙ ap bytes_of (request_bytes_lem id argv b k f)

pub response_bytes_lem :
    (id error : ℕ) (argv : List DlpArg)
    → id < 128
    → IsByte (length argv)
    → All Fits argv
    → response_bytes (record { id = id; argc = length argv; error = error }) argv
      ≡ some ((id + 128) ∷ length argv ∷ (uword_bytes error ++ args_bytes argv))
unfolding response_bytes put_ubyte
response_bytes_lem id error argv b k f =
    put_args_lem argv _ f
    ∙ rw (put_uword_lem, bit_or_high 7 1 id (omega (arith, b)))
        (ap₂ (λ (x y : ℕ). some (x ∷ y ∷ (uword_bytes error ++ args_bytes argv))) (omega (arith, b))
          (omega (arith, k)))

-- A response whose identifier has seven bits, whose error is a word and whose arguments are as for a
-- request, arrives as it was sent: over a transport that brings its bytes, `dlp_recv_resp` for the
-- request with that identifier returns the header, with the high bit of the identifier set, and the
-- arguments, and there is room for them in the connection.
pub dlp_recv_resp-response_bytes :
    (transport : Transport) (id error : ℕ) (argv : List DlpArg) (bytes : List ℕ)
    (c c' : PConnection)
    → id < 128
    → IsUword error
    → IsByte (length argv)
    → All Fits argv
    → response_bytes (record { id = id; argc = length argv; error = error }) argv ≡ some bytes
    → Brings transport bytes c c'
    → dlp_recv_resp transport id c ≡ (
      ok (record { id = id + 128; argc = length argv; error = error }, argv),
      with_argv (length argv) c',
    )
unfolding dlp_recv_resp get_resp_header get_ubyte check_response
dlp_recv_resp-response_bytes transport id error argv bytes c c' b u k f e brings =
    bind_ok (read_message transport) _ (read_message_lem transport brings.result)
    ∙ rw
        (
          laid_out,
          get_uword_lem (error / 256 % 256) (error % 256) (args_bytes argv ++ brings.rest)
              (omega arith),
          nonempty,
          high,
          low,
          ==_refl id,
          whole,
        )
        (receive_args_lem transport (record { id = id + 128; argc = length argv; error = error })
          argv brings.rest c' brings.allocs f)
  where
    nonempty :
        (length ((id + 128) ∷ length argv ∷ (uword_bytes error ++ args_bytes argv)) == 0) ≡ false
    nonempty = ground arith

    high : bit_and (id + 128) 0x80 ≡ 0x80
    high = bit_and_field 1 7 (id + 128) ∙ omega (arith, b)

    low : bit_and (id + 128) 0x7f ≡ id
    low = bit_and_low 7 (id + 128) ∙ omega (arith, b)

    whole : error / 256 % 256 * 256 + error % 256 ≡ error
    whole = omega (arith, u)

    laid_out : bytes ≡ (id + 128) ∷ length argv ∷ (uword_bytes error ++ args_bytes argv)
    laid_out = sym (ap bytes_of e) ∙ ap bytes_of (response_bytes_lem id error argv b k f)
