-- ===== src/Cmd/Requests/ByIndex.antt =====
-- The request of libpconn/dlp_cmd.c for a record by its index.
use coldsync.Base.{ℕ, ◌≡◌, refl}
use coldsync.Conn.{PConnection, fault}
use coldsync.Dlp.{Transport}
use coldsync.Cmd.{call_clearing, call, send}
use coldsync.Cmd.Records.{dlp_read_record_by_index, RecInfo, read_record_by_index}

-- Every call of DlpReadRecordByIndex writes past the end of its buffer, of eight bytes, before it
-- sends anything: whatever the handle, the index, the connection and what carries its messages, the
-- request is too long.
pub dlp_read_record_by_index_fault :
    (transport : Transport) (handle index : ℕ) (old : RecInfo) (c : PConnection)
    → dlp_read_record_by_index transport handle index old c ≡ (fault, c)
unfolding dlp_read_record_by_index read_record_by_index call call_clearing send
    coldsync.Cmd.with_arg coldsync.Bytes.put_ubyte coldsync.Bytes.put_uword
    coldsync.Bytes.put_udword
dlp_read_record_by_index_fault transport handle index old c = refl
