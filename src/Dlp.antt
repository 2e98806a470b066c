-- ===== src/Dlp.antt =====
-- libpconn/dlp.c: the Desktop Link Protocol, requests with arguments and the responses to them. What
-- carries them, PADP or NetSync, is an argument (`dlp.read` and `dlp.write` of the connection).
pub mod Packet
pub mod Args
pub mod RoundTrip
pub mod Exchange
use coldsync.Base.{ℕ, zero, suc, ◌+◌, ◌==◌, ltb, not, if◌then◌else◌, bit_and}
use coldsync.Base.{Option, none, some, List, [], ◌∷◌, length}
use coldsync.Bytes.{uword_many}
use coldsync.Conn.{
  PConnection, Dlp, DlpRespHeader, Result, ok, err, eof, fault, stuck, PalmErrno, noerr, timeout,
  timeout2, badid, lost,
}
use coldsync.Conn.Monad.{
  M, ◌>>=◌, ◌>>◌, pure, fail, gets, modify, in_bounds, set_palmerrno, set_status,
}
use coldsync.Conn.Calls.{allocate}
use coldsync.Slp
use Packet.{
  DlpReqHeader, DlpArg, request_bytes, response_bytes, get_req_header, get_resp_header, get_args,
}

abbrev dlp_default_argv_len : ℕ
dlp_default_argv_len = 10

-- The functions that carry a message.
pub record Transport : Type 0 where
  pub read : M Slp.Packet
  pub write : List ℕ → M (Unit {0})

unfoldable dlp_init : M (Unit {0})
dlp_init = do
  found ← allocate
  if not found
      then fail
      else modify (λ c. record c {
        dlp = record c.dlp {
          argv_len = dlp_default_argv_len;
          resp = record c.dlp.resp { error = 0 };
        };
      })

module _ (transport : Transport) where
  -- The bytes are laid out in memory of their length, and their number goes to `dlp.write` as a uword.
  unfoldable pub send_message : Option (List ℕ) → M (Unit {0})
  send_message outbuf = do
    set_palmerrno noerr
    found ← allocate
    if not found then fail else in_bounds outbuf >>= λ bytes. transport.write (uword_many bytes)

  unfoldable pub dlp_send_req : DlpReqHeader → List DlpArg → M (Unit {0})
  unfolding send_message
  dlp_send_req header argv = send_message (request_bytes header argv)

  unfoldable dlp_send_resp : DlpRespHeader → List DlpArg → M (Unit {0})
  unfolding send_message
  dlp_send_resp header argv = send_message (response_bytes header argv)

  -- Room for the arguments.
  unfoldable pub grow_argv : ℕ → M (Unit {0})
  grow_argv argc = do
    room ← gets (λ c. c.dlp.argv_len)
    if not (ltb room argc) then pure tt else do
      found ← allocate
      if not found then fail else modify (λ c. record c { dlp = record c.dlp { argv_len = argc } })

  unfoldable pub receive_args : {A : Type 0} → A → ℕ → List ℕ → M (A × List DlpArg)
  unfolding grow_argv
  receive_args header argc rptr = do
    grow_argv argc
    argv ← in_bounds (get_args argc rptr)
    pure (header, argv)

  -- The end of the input is no error to the code, but then the pointer to the message was never set.
  unfoldable pub set_buffer : Result Slp.Packet → Result Slp.Packet
  set_buffer eof = fault
  set_buffer r = r

  unfoldable pub read_message : M Slp.Packet
  unfolding set_buffer
  read_message c = (set_buffer (transport.read c).0, (transport.read c).1)

  -- A response has the high bit, and the number of its request.
  unfoldable pub check_response : ℕ → DlpRespHeader × List ℕ → M (DlpRespHeader × List DlpArg)
  unfolding receive_args
  check_response id (header, rptr) =
      if not (bit_and header.id 0x80 == 0x80)
      then fail
      else if not (bit_and header.id 0x7f == id)
      then set_palmerrno badid >> fail
      else receive_args header header.argc rptr

  -- The length that came in is only compared with 0.
  unfoldable pub dlp_recv_resp : ℕ → M (DlpRespHeader × List DlpArg)
  unfolding check_response read_message
  dlp_recv_resp id = do
    inbuf ← read_message
    if inbuf.len == 0 then fail else in_bounds (get_resp_header inbuf.buf) >>= check_response id

  unfoldable pub dlp_recv_req : M (DlpReqHeader × List DlpArg)
  unfolding receive_args read_message
  dlp_recv_req = do
    inbuf ← read_message
    (header, rptr) ← in_bounds (get_req_header inbuf.buf)
    receive_args header header.argc rptr

  -- Request and response, once.
  unfoldable pub exchange : DlpReqHeader → List DlpArg → M (DlpRespHeader × List DlpArg)
  unfolding dlp_send_req dlp_recv_resp
  exchange header argv = do dlp_send_req header argv; dlp_recv_resp header.id

  -- After a failed exchange only a timeout, by the error number, is worth another one.
  retry_on : PalmErrno → M (DlpRespHeader × List DlpArg) → M (DlpRespHeader × List DlpArg)
  retry_on timeout2 again = again
  retry_on _ again = fail

  settle :
      Result (DlpRespHeader × List DlpArg)
      → M (DlpRespHeader × List DlpArg)
      → M (DlpRespHeader × List DlpArg)
  unfolding retry_on
  settle (ok (header, argv)) again = do
    modify (λ c. record c { dlp = record c.dlp { resp = header } })
    pure (header, argv)
  settle err again = λ c. retry_on c.palm_errno again c
  settle eof again = λ c. (eof, c)
  settle fault again = λ c. (fault, c)
  settle stuck again = λ c. (stuck, c)

  -- The loop, with the tries that are left.
  unfoldable pub try_exchange : ℕ → DlpReqHeader → List DlpArg → M (DlpRespHeader × List DlpArg)
  unfolding exchange settle
  try_exchange zero header argv = do set_palmerrno timeout; set_status lost; fail
  try_exchange (suc tries) header argv =
      let again = try_exchange tries header argv in
      λ c. settle (exchange header argv c).0 again (exchange header argv c).1

  unfoldable pub dlp_dlpc_req : DlpReqHeader → List DlpArg → M (DlpRespHeader × List DlpArg)
  unfolding try_exchange
  dlp_dlpc_req = try_exchange 5
