-- ===== src/Cmd.antt =====
-- libpconn/dlp_cmd.c: the requests of the Desktop Link Protocol. Every function of that file lays out
-- its argument, calls `dlp_dlpc_req`, returns the error of the response if there is one, and else goes
-- through the arguments that came back. The types of requests and answers are those of
-- include/pconn/dlp_cmd.h.
--
-- What a function writes through its pointers is a value that goes in and comes out. `fault` is an
-- access outside of the data of an argument, or of the buffer that the request is written into.
pub mod Memory
pub mod Records
pub mod Blocks
pub mod Info
pub mod System
pub mod Storage
pub mod Databases
pub mod Applications
pub mod NetSync
pub mod Lists
pub mod Slots
pub mod Requests
pub mod Answers
pub mod Resources
use coldsync.Base.{ℕ, ◌==◌, leb, not, if◌then◌else◌, Bool, true, false}
use coldsync.Base.{Option, none, some, List, [], ◌∷◌, length}
use coldsync.Base.Maybe
use coldsync.Conn.{DlpRespHeader}
use coldsync.Conn.Monad.{M, ◌>>=◌, pure, fail, in_bounds}
use coldsync.Conn.Calls.{allocate}
use coldsync.Dlp.{Transport, dlp_dlpc_req}
use coldsync.Dlp.Packet.{DlpReqHeader, DlpArg}

-- The request of a function: its number, whether the buffer for it is allocated, and its arguments;
-- `none` where writing them leaves the buffer.
pub record Request : Type 0 where
  pub id : ℕ
  pub allocates : Bool
  pub argv : Option (List DlpArg)

-- The bytes before `wptr` in a buffer of so many bytes.
unfoldable pub outbuf : ℕ → List ℕ → Option (List ℕ)
outbuf room written = if leb (length written) room then some written else none

unfoldable pub one_arg : ℕ → Option (List ℕ) → Option (List DlpArg)
one_arg id none = none
one_arg id (some payload) = some (record { id = id; payload = payload } ∷ [])

-- A request without arguments, with one in a static buffer, and with one in allocated memory.
unfoldable pub no_args : ℕ → Request
no_args id = record { id = id; allocates = false; argv = some [] }

unfoldable pub with_arg : ℕ → ℕ → ℕ → List ℕ → Request
unfolding outbuf one_arg
with_arg id arg room written = record {
  id = id;
  allocates = false;
  argv = one_arg arg (outbuf room written);
}

unfoldable pub with_allocated : ℕ → ℕ → ℕ → List ℕ → Request
unfolding outbuf one_arg
with_allocated id arg room written = record {
  id = id;
  allocates = true;
  argv = one_arg arg (outbuf room written);
}

-- A case of the switch over the identifiers of arguments.
unfoldable pub on_arg :
    {R : Type 0} → ℕ → (List ℕ → R → Option R) → (DlpArg → R → Option R) → DlpArg → R → Option R
on_arg id get others arg r = if arg.id == id then get arg.payload r else others arg r

-- Its default: an argument that is not known is passed over.
unfoldable pub unknown_arg : {R : Type 0} → DlpArg → R → Option R
unknown_arg arg r = some r

-- The loop over the arguments that came back.
unfoldable pub get_all : {R : Type 0} → (DlpArg → R → Option R) → List DlpArg → R → Option R
get_all get [] r = some r
get_all get (arg ∷ argv) r = Maybe.◌>>=◌ (get arg r) (get_all get argv)

module _ (transport : Transport) where
  unfoldable pub send : Request → M (DlpRespHeader × List DlpArg)
  send request = do
    found ← if request.allocates then allocate else pure true
    if not found then fail else do
      argv ← in_bounds request.argv
      dlp_dlpc_req transport (record { id = request.id; argc = length argv }) argv

  -- The error of the response, or else 0 and what the arguments leave.
  unfoldable pub conclude :
      {R : Type 0} → (List DlpArg → R → M R) → R → DlpRespHeader × List DlpArg → M (ℕ × R)
  conclude receive r (header, ret_argv) =
      if not (header.error == 0)
      then pure (header.error, r)
      else do r ← receive ret_argv r; pure (0, r)

  -- `clear` is done before the arguments are looked at.
  unfoldable pub call_clearing :
      {R : Type 0} → Request → (R → R) → (DlpArg → R → Option R) → R → M (ℕ × R)
  unfolding send conclude get_all
  call_clearing request clear get r =
      send request
      >>= conclude (λ (ret_argv : List DlpArg) r. in_bounds (get_all get ret_argv (clear r))) r

  unfoldable pub call : {R : Type 0} → Request → (DlpArg → R → Option R) → R → M (ℕ × R)
  unfolding call_clearing
  call request get = call_clearing request (λ r. r) get

  -- Nothing is read from the response but its error.
  unfoldable pub call_only : Request → M (ℕ × Unit {0})
  unfolding call unknown_arg
  call_only request = call request unknown_arg tt
