-- ===== src/Dlp/Exchange.antt =====
-- A request that goes out and the response to it that comes in, at the first try.
use coldsync.Base.{ℕ, ◌≡◌, ap, ◌∙◌, ◌+◌, ◌<◌, List, [], length, All, Option, some}
use coldsync.Bytes.{IsByte, IsUword}
use coldsync.Bytes.Laws.{uword_many_lem}
use coldsync.Conn.{PConnection, ok, noerr}
use coldsync.Conn.Monad.{bind_ok}
use coldsync.Conn.Calls.{allocate, allocate_lem}
use coldsync.Dlp.Packet.{DlpArg, request_bytes, response_bytes}
use coldsync.Dlp.Args.{Fits}
use coldsync.Dlp.RoundTrip.{Brings, with_argv, dlp_recv_resp-response_bytes}
use coldsync.Dlp.{Transport, send_message, dlp_send_req, exchange, try_exchange, dlp_dlpc_req}

-- Over the transport the request's bytes, fewer than 2 ^ 16, go out, and then the bytes of a response to it come in,
-- with this error and these arguments.
pub record Replies (transport : Transport) (id : ℕ) (argv : List DlpArg) (error : ℕ)
    (ret_argv : List DlpArg) (c c' : PConnection) : Type 0 where
  pub out : List ℕ
  pub laid_out : request_bytes (record { id = id; argc = length argv }) argv ≡ some out
  pub short : IsUword (length out)
  pub between : PConnection
  pub sent : transport.write out (record c { palm_errno = noerr }) ≡ (ok tt, between)
  pub back : List ℕ
  pub answered :
      response_bytes (record { id = id; argc = length ret_argv; error = error }) ret_argv
      ≡ some back
  pub brings : Brings transport back between c'
  pub allocs : c.device.allocs ≡ []
  pub word : IsUword error
  pub count : IsByte (length ret_argv)
  pub fits : All Fits ret_argv

-- The connection once the response has come in.
abbrev pub answered_with : ℕ → ℕ → List DlpArg → PConnection → PConnection
answered_with id error ret_argv c = record (with_argv (length ret_argv) c) {
  dlp = record (with_argv (length ret_argv) c).dlp {
    resp = record { id = id + 128; argc = length ret_argv; error = error };
  };
}

module _ (transport : Transport) (id : ℕ) (argv : List DlpArg) (error : ℕ) (ret_argv : List DlpArg)
    (c c' : PConnection) (h : id < 128)
    (replies : Replies transport id argv error ret_argv c c') where
  send_out :
      dlp_send_req transport (record { id = id; argc = length argv }) argv c
      ≡ (ok tt, replies.between)
  unfolding dlp_send_req
  send_out =
      ap (λ (o : Option (List ℕ)). send_message transport o c) replies.laid_out
      ∙ bind_ok allocate _ (allocate_lem (record c { palm_errno = noerr }) replies.allocs)
      ∙ ap (λ (out : List ℕ). transport.write out (record c { palm_errno = noerr }))
          (uword_many_lem replies.out replies.short)
      ∙ replies.sent

  exchange_lem : exchange transport (record { id = id; argc = length argv }) argv c ≡ (
    ok (record { id = id + 128; argc = length ret_argv; error = error }, ret_argv),
    with_argv (length ret_argv) c',
  )
  unfolding exchange
  exchange_lem =
      bind_ok (dlp_send_req transport (record { id = id; argc = length argv }) argv) _ {c = c}
        send_out
      ∙ dlp_recv_resp-response_bytes transport id error ret_argv replies.back replies.between c' h
          replies.word replies.count replies.fits replies.answered replies.brings

  -- Where a transport takes a request and brings the response to it, the call ends with the response's
  -- header and arguments, and the connection keeps the header.
  pub dlp_dlpc_req_answered :
      dlp_dlpc_req transport (record { id = id; argc = length argv }) argv c ≡ (
        ok (record { id = id + 128; argc = length ret_argv; error = error }, ret_argv),
        answered_with id error ret_argv c',
      )
  unfolding dlp_dlpc_req try_exchange
  dlp_dlpc_req_answered = rw exchange_lem
