-- ===== src/Lib.antt =====
-- ColdSync keeps copies of a Palm's databases (libpdb) in sync with the Palm (src): for each record
-- the generic conduit decides which side wins. It talks to a Palm over a stack of protocols in
-- libpconn: a connection with a device below it (PConnection), packets with a CRC (SLP), messages in
-- acknowledged fragments (PADP), the handshake of a connection (CMP), and requests with responses
-- (DLP). Each layer calls the one below it, and all of them change one `PConnection`, which the
-- model passes from call to call.
--
-- Bytes, Bytes/*: libpconn/util.c, big-endian numbers behind a moving pointer. A pointer that is
--   read is the list of bytes from it on, one that is written the list of bytes before it.
-- Crc, Crc/*: libpconn/crc.c, the table and `crc16`; Crc/Reference has the shift register that the
--   table stands for, Crc/Detection what the check detects.
-- Conn, Conn/*: include/pconn/PConnection.h and libpconn/PConnection.c: the state, `PConn_read`,
--   `PConn_write`, `PConn_timedselect`. A device is a script: the input, and how many bytes each
--   system call lets pass, or that it fails; whether the descriptor gets ready; whether memory is
--   found.
-- Slp, Slp/*: libpconn/slp.c, `slp_read` and `slp_write` whole. Its `goto redo` is the result `none`
--   of an attempt.
-- Padp, Padp/*: libpconn/padp.c, `padp_read` and `padp_write` whole, with acknowledgements, retries
--   and the checks on fragments.
-- Cmp, Cmp/*: libpconn/cmp.c, the ten bytes of a packet, and both sides of the handshake.
-- Dlp, Dlp/*: libpconn/dlp.c, the bytes of requests and responses, and the loop that repeats a
--   request. The functions that carry a message, `dlp.read` and `dlp.write`, are a record that is an
--   argument.
-- NetSync, NetSync/*: libpconn/netsync.c, messages behind a header of six bytes, which can take the
--   place of PADP below DLP, and the exchange of fixed packets that comes first.
-- Cmd, Cmd/*: libpconn/dlp_cmd.c, every function of it. What they have in common is in Cmd: a request
--   with an argument that is written into a buffer, `dlp_dlpc_req`, the error, the loop over the
--   arguments that come back. Cmd/Info, System, Storage, Databases, Blocks, Records, Resources,
--   Applications, NetSync, Lists and Slots have the functions, each as its request and what it reads;
--   what it writes through pointers goes in and comes out. Cmd/Requests/Kinds lists the requests.
-- Pdb, Pdb/*: include/pdb.h and libpdb/pdb.c, databases in memory and their lists of records. A
--   pointer to a record is its address; Pdb/Maps has the list as a map from IDs to contents;
--   Pdb/Header and Pdb/Index have the header and the index of the records in a file, Pdb/File the
--   whole of `pdb_Read` and `pdb_Write` over the bytes of a file.
-- Generic, Generic/*: src/conduits/generic.cc (src/GenericConduit.cc is a copy of it), `SyncRecord`
--   and what it calls, over a state of the Palm, the local database, the archive and the memory;
--   Generic/First, Generic/Slow and Generic/Fast have the walks of `FirstSync`, `SlowSync` and
--   `FastSync` over records. The Palm is a parameter (Generic/Remote) with laws that the theorems
--   name where they need them.
-- Base, Base/*: tests, lists and bits that the other modules share. Tests/*: concrete inputs.
--
-- A C function returns a result and the connection after it: `ok` with a value, `err` for a negative
-- number, `eof` for the 0 of an end of file, `fault` for an access outside of a buffer, and `stuck`
-- where the model ran out of fuel. The fuel of a loop that waits for bytes is the number of bytes
-- that the device still has, and one: every round takes a byte, or ends the loop. The loops over a
-- count have the count. `cmp_accept`, `cmp_wakeup` and `dlp_read_record_id_list` take their fuel as
-- an argument.
--
-- Numbers are natural numbers; what a `ubyte`, `uword` or `udword` cuts off is written out where the
-- code relies on it, and a `udword` has the 32 bits that palm_types.h states.
--
-- Not modelled: trace output, callbacks, byte counters and file descriptors; the drivers of devices
-- (serial, USB, network), which the script stands for; how much room a caller's array of
-- databases has; a disk that is full; and the program in src, with its parser,
-- its conduits, and what the generic conduit does before and after it looks at records. The generic
-- conduit has its calls of dlp_cmd.c as parameters.
pub mod Base
pub mod Bytes
pub mod Crc
pub mod Conn
pub mod Slp
pub mod Padp
pub mod Cmp
pub mod Dlp
pub mod NetSync
pub mod Rpc
pub mod Cmd
pub mod Pdb
pub mod Generic
pub mod Tests
