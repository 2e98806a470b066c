-- ===== src/Tests/Messages.antt =====
-- The theorems on requests and responses, at concrete inputs.
use coldsync.Base.{ℕ, ◌≡◌, refl, arith, some, List, [], ◌∷◌, ◌++◌, length}
use coldsync.Conn.{ok}
use coldsync.Dlp.{Transport, dlp_recv_req, dlp_recv_resp}
use coldsync.Dlp.Packet.{DlpArg, request_bytes, response_bytes}
use coldsync.Dlp.RoundTrip.{with_argv, dlp_recv_req-request_bytes, dlp_recv_resp-response_bytes}
use coldsync.Tests.Samples.{connection_with}

abbrev args : List DlpArg
args = record { id = 0x20; payload = 1 ∷ 2 ∷ [] } ∷ record { id = 0x21; payload = [] } ∷ []

-- The bytes of a request with these arguments, and of a response.
abbrev request : List ℕ
request = 0x17 ∷ 2 ∷ 0x20 ∷ 2 ∷ 1 ∷ 2 ∷ 0x21 ∷ 0 ∷ []

abbrev response : List ℕ
response = 0x97 ∷ 2 ∷ 0 ∷ 5 ∷ 0x20 ∷ 2 ∷ 1 ∷ 2 ∷ 0x21 ∷ 0 ∷ []

request_laid_out : request_bytes (record { id = 0x17; argc = 2 }) args ≡ some request
unfolding request_bytes coldsync.Bytes.put_ubyte
request_laid_out = refl

response_laid_out : response_bytes (record { id = 0x17; argc = 2; error = 5 }) args ≡ some response
unfolding response_bytes coldsync.Bytes.put_ubyte coldsync.Bytes.put_uword
response_laid_out = refl

-- A transport that brings the same bytes, with more in the buffer, again and again.
abbrev pub bringing : List ℕ → Transport
bringing bytes = record {
  read = λ c. (ok (record { buf = bytes ++ (0 ∷ []); len = length bytes }), c);
  write = λ out c. (ok tt, c);
}

dlp_recv_req-request_bytes_example :
    dlp_recv_req (bringing request) (connection_with [])
    ≡ (ok (record { id = 0x17; argc = 2 }, args), with_argv 2 (connection_with []))
dlp_recv_req-request_bytes_example =
    dlp_recv_req-request_bytes (bringing request) 0x17 args request (connection_with [])
      (connection_with []) (omega arith) (omega arith)
      (
        record { id = omega arith; size = omega arith },
        (record { id = omega arith; size = omega arith }, tt),
      )
      request_laid_out (record { rest = 0 ∷ []; result = refl; allocs = refl })

dlp_recv_resp-response_bytes_example :
    dlp_recv_resp (bringing response) 0x17 (connection_with [])
    ≡ (ok (record { id = 0x97; argc = 2; error = 5 }, args), with_argv 2 (connection_with []))
dlp_recv_resp-response_bytes_example =
    dlp_recv_resp-response_bytes (bringing response) 0x17 5 args response (connection_with [])
      (connection_with []) (omega arith) (omega arith) (omega arith)
      (
        record { id = omega arith; size = omega arith },
        (record { id = omega arith; size = omega arith }, tt),
      )
      response_laid_out (record { rest = 0 ∷ []; result = refl; allocs = refl })
