-- ===== src/Rpc.antt =====
-- libpconn/dlp_rpc.c, include/pconn/dlp_rpc.h: system functions of the Palm, called over DLP. `DlpRPC`
-- lays out the call, sends it past `dlp_dlpc_req`, and copies what comes back into the parameters.
--
-- The union of a parameter is a data type, whose constructor is the member that was stored last and,
-- in a call, the `type`. `raw_v` points to `target`, which stays where it is when another member is
-- stored over the pointer. A read of another member than the last one, which C leaves to the
-- implementation, is `fault`, like an access outside of a buffer. The register D0 that a wrapper
-- returns stands for the `int` with the same bits.
pub mod Packet
pub mod Calls
pub mod MemMove
use coldsync.Base.{ℕ, List}
use coldsync.Conn.{Result, ok, err, eof, fault, stuck}
use coldsync.Conn.Monad.{M, ◌>>=◌, ◌>>◌, in_bounds}
use coldsync.Dlp.{Transport}
use coldsync.Slp
use Packet.{DlpRpcParam, RpcReturn, call_bytes, get_return}

-- The result of `dlp.read` is not examined: when it has failed, the pointer to the answer that is
-- read next was never set.
received : Result Slp.Packet → Result Slp.Packet
received (ok inbuf) = ok inbuf
received err = fault
received eof = fault
received fault = fault
received stuck = stuck

read_answer : Transport → M Slp.Packet
unfolding received
read_answer transport c = (received (transport.read c).0, (transport.read c).1)

unfoldable pub dlp_rpc : Transport → ℕ → ℕ → ℕ → List DlpRpcParam → M RpcReturn
unfolding read_answer
dlp_rpc transport trap d0 a0 argv = do
  outbuf ← in_bounds (call_bytes trap d0 a0 argv)
  transport.write outbuf
  inbuf ← read_answer transport
  in_bounds (get_return inbuf.buf argv)
