-- ===== src/Tests/Remote.antt =====
-- The theorem on remote calls, at a concrete answer that comes over NetSync.
use coldsync.Base.{ℕ, ◌≡◌, refl, List, [], ◌∷◌, ◌++◌}
use coldsync.Conn.{PConnection, ok}
use coldsync.Bytes.{get_ubyte, get_udword, put_ubyte, put_udword, put_uword, uword_many}
use coldsync.Conn.Calls.{allocate, pconn_read, pconn_timedselect, pconn_write, write_all}
use coldsync.NetSync.{netsync_read, netsync_transport, netsync_write}
use coldsync.NetSync.Reading.{net_header}
use coldsync.Rpc.Packet.{call_bytes}
use coldsync.Rpc.Calls.{mem_move_params, rdlp_mem_move}
use coldsync.Rpc.MemMove.{answer, rdlp_mem_move_lem}
use coldsync.Tests.Net.{over_net}

-- "B1234" and a NUL, to where zeros are.
abbrev serial : List ℕ
serial = 0x42 ∷ 0x31 ∷ 0x32 ∷ 0x33 ∷ 0x34 ∷ 0 ∷ []

abbrev zeros : List ℕ
zeros = 0 ∷ 0 ∷ 0 ∷ 0 ∷ 0 ∷ 0 ∷ []

abbrev moved : List ℕ → List ℕ
moved = answer 0xad 1 0 0 0 0 0xa0 0x26 0 0 0 0 0 0 0 0 0 0 0 6 0x10 0xc0 1 0

abbrev cradle : PConnection
cradle = over_net (net_header 1 9 38 ++ moved serial)

abbrev mem_move_call : List ℕ
mem_move_call =
    0x2d ∷ 1 ∷ 0x0a ∷ 0 ∷ 0xa0 ∷ 0x26 ∷ 0 ∷ 0 ∷ 0 ∷ 0 ∷ 0 ∷ 0 ∷ 0 ∷ 0 ∷ 0 ∷ 3 ∷ 0 ∷ 4 ∷ 0 ∷ 0 ∷ 0
    ∷ 6 ∷ 0 ∷ 4 ∷ 0x10 ∷ 0xc0 ∷ 1 ∷ 0 ∷ 1 ∷ 6 ∷ zeros

abbrev called : PConnection
called = (netsync_transport.write mem_move_call cradle).1

rdlp_mem_move_lem_example :
    rdlp_mem_move netsync_transport zeros 0x10c00100 6 cradle
    ≡ (ok serial, (netsync_transport.read called).1)
unfolding call_bytes mem_move_params put_ubyte put_udword put_uword netsync_write pconn_write
    write_all netsync_read pconn_timedselect pconn_read get_ubyte get_udword allocate uword_many
rdlp_mem_move_lem_example =
    rdlp_mem_move_lem 0xad 1 0 0 0 0 0xa0 0x26 0 0 0 0 0 0 0 0 0 0 0 6 0x10 0xc0 1 0
      netsync_transport zeros serial mem_move_call 0x10c00100 38 cradle called
      (netsync_transport.read called).1 refl refl refl refl
