-- ===== src/Conn.antt =====
-- libpconn/PConnection.c and include/pconn/PConnection.h: the state of a connection, the error
-- numbers, and the calls that pass through the virtual functions `io_read`, `io_write`, `io_select`.
--
-- What those functions and the allocator answer is the device's script. A reply `upto k` to a read
-- or a write lets at most k + 1 bytes pass, as read(2) and write(2) may; `refuse` is their -1. A
-- script that has ended lets everything pass. A read at the end of the input is end of file.
-- Callbacks on errors and states, byte counters, file descriptor and `errno` are left out.
pub mod Monad
pub mod Calls
pub mod Reading
pub mod Writing
pub mod Ends
use coldsync.Base.{ℕ, Bool, Option, List}

pub data PalmErrno : Type 0 where
  noerr system nomem timeout timeout2 badf end_of_file abort badid badresid badargid ackxid :
      PalmErrno

pub data Status : Type 0 where
  unset up lost closed : Status

pub data Reply : Type 0 where
  upto : ℕ → Reply
  refuse : Reply

-- `selects` says whether the descriptor gets ready in time, `allocs` whether memory is found.
pub record Device : Type 0 where
  pub input : List ℕ
  pub output : List ℕ
  pub reads : List Reply
  pub writes : List Reply
  pub selects : List Bool
  pub allocs : List Bool

-- `struct slp_addr`
pub record SlpAddr : Type 0 where
  pub protocol : ℕ
  pub port : ℕ

-- The SLP part. Of the buffers only their lengths outlive a call.
pub record Slp : Type 0 where
  pub local_addr : SlpAddr
  pub remote_addr : SlpAddr
  pub inbuf_len : ℕ
  pub outbuf_len : ℕ
  pub last_xid : ℕ

-- The PADP part. `inbuf` is the buffer for messages of several fragments, if there is one.
pub record Padp : Type 0 where
  pub xid : ℕ
  pub read_timeout : ℕ
  pub inbuf : Option (List ℕ)
  pub inbuf_len : ℕ

-- `struct dlp_resp_header`
pub record DlpRespHeader : Type 0 where
  pub id : ℕ
  pub argc : ℕ
  pub error : ℕ

-- The DLP part. `argv_len` is the room for arguments, `resp` the header of the last response.
pub record Dlp : Type 0 where
  pub argv_len : ℕ
  pub resp : DlpRespHeader

-- The types of protocol stacks.
pub data ProtocolStack : Type 0 where
  stack_none stack_default stack_full stack_simple stack_net : ProtocolStack

-- The NetSync part. Of the buffer nothing outlives a call.
pub record Net : Type 0 where
  pub xid : ℕ

-- `whosonfirst` says whether the connection was made from this side.
pub record PConnection : Type 0 where
  pub device : Device
  pub palm_errno : PalmErrno
  pub status : Status
  pub emulate_palm : Bool
  pub protocol : ProtocolStack
  pub whosonfirst : Bool
  pub slp : Slp
  pub padp : Padp
  pub dlp : Dlp
  pub net : Net

-- How a C function ends: with a value, with a negative number, with the 0 of an end of file, with an
-- access outside of a buffer, or not within the fuel.
pub data Result {ℓ} (A : Type ℓ) : Type ℓ where
  ok : A → Result A
  err : Result A
  eof : Result A
  fault : Result A
  stuck : Result A
