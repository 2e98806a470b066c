-- ===== src/Tests/Lists.antt =====
-- The theorems on lists of databases and record identifiers, and on a record that is written, at
-- concrete inputs.
use coldsync.Base.{ℕ, ◌≡◌, refl, arith, some, List, [], ◌∷◌, ◌++◌, length, replicate}
use coldsync.Bytes.Laws.{uword_bytes, udword_bytes}
use coldsync.Conn.{ok, stuck}
use coldsync.Dlp.Packet.{request_bytes, response_bytes}
use coldsync.Dlp.Exchange.{answered_with}
use coldsync.Cmd.Memory.{DlpTime}
use coldsync.Cmd.Records.{dlp_write_record}
use coldsync.Cmd.Databases.{DbInfo, dlp_read_db_list}
use coldsync.Cmd.Lists.{id_lists}
use coldsync.Cmd.Lists.Ends.{id_lists_stuck}
use coldsync.Cmd.Answers.{the_arg}
use coldsync.Cmd.Answers.Record.{written_bytes, dlp_write_record_lem}
use coldsync.Cmd.Answers.DbList.{Entry, IsEntry, list_bytes, dlp_read_db_list_lem}
use coldsync.Tests.Messages.{bringing}
use coldsync.Tests.Commands.{here, answering}

abbrev written : List ℕ
written = written_bytes 1 0 5 0x40 2 (7 ∷ [])

write_request :
    request_bytes (record { id = 0x21; argc = 1 }) (the_arg written)
    ≡ some (0x21 ∷ 1 ∷ 0x20 ∷ 9 ∷ written)
unfolding request_bytes coldsync.Bytes.put_ubyte
write_request = refl

abbrev write_response : List ℕ
write_response = 0xa1 ∷ 1 ∷ 0 ∷ 0 ∷ 0x20 ∷ 4 ∷ udword_bytes 77

write_answered :
    response_bytes (record { id = 0x21; argc = 1; error = 0 }) (the_arg (udword_bytes 77))
    ≡ some write_response
unfolding response_bytes coldsync.Bytes.put_ubyte coldsync.Bytes.put_uword
write_answered = refl

dlp_write_record_lem_example :
    dlp_write_record (bringing write_response) 1 0 5 0x40 2 (7 ∷ []) 0 here
    ≡ (ok (0, 77), answered_with 0x21 0 (the_arg (udword_bytes 77)) here)
dlp_write_record_lem_example =
    dlp_write_record_lem (bringing write_response) 1 0 5 0x40 2 (7 ∷ []) 77 0 here here
      (omega arith)
      (answering 0x21 (the_arg written) 0 (the_arg (udword_bytes 77))
        (0x21 ∷ 1 ∷ 0x20 ∷ 9 ∷ written) write_response write_request write_answered (omega arith)
        (omega arith) (omega arith) (record { id = omega arith; size = omega arith }, tt))

abbrev time : DlpTime
time = record { year = 2001; month = 2; day = 3; hour = 4; minute = 5; second = 6 }

-- A database named ab, whose entry is filled up with one byte to 48.
abbrev db : DbInfo
db = record {
  size = 48;
  misc_flags = 0;
  db_flags = 8;
  type = 0x44415441;
  creator = 0x6d656d6f;
  version = 1;
  modnum = 300;
  ctime = time;
  mtime = time;
  baktime = time;
  index = 5;
  name = 97 ∷ 98 ∷ replicate 30 0;
}

abbrev entry : Entry
entry = record { db = db; name = 97 ∷ 98 ∷ []; fill = 0 ∷ [] }

abbrev listed : List ℕ
listed = list_bytes 5 0x80 (entry ∷ entry ∷ [])

entry-IsEntry : IsEntry uword_bytes udword_bytes entry
unfolding coldsync.Cmd.Answers.DbList.db_entry_bytes
entry-IsEntry = record {
  info = record {
    db_flags = omega arith;
    type = omega arith;
    creator = omega arith;
    version = omega arith;
    modnum = omega arith;
    ctime = omega arith;
    mtime = omega arith;
    baktime = omega arith;
    index = omega arith;
    short = omega arith;
    nonzero = (refl, (refl, tt));
    padded = refl;
  };
  sized = refl;
}

list_request :
    request_bytes (record { id = 0x16; argc = 1 }) (the_arg (0xc0 ∷ 0 ∷ uword_bytes 3))
    ≡ some (0x16 ∷ 1 ∷ 0x20 ∷ 4 ∷ 0xc0 ∷ 0 ∷ uword_bytes 3)
unfolding request_bytes coldsync.Bytes.put_ubyte
list_request = refl

abbrev list_response : List ℕ
list_response = 0x96 ∷ 1 ∷ 0 ∷ 0 ∷ 0x20 ∷ 100 ∷ listed

list_answered :
    response_bytes (record { id = 0x16; argc = 1; error = 0 }) (the_arg listed) ≡ some list_response
unfolding response_bytes coldsync.Bytes.put_ubyte coldsync.Bytes.put_uword
    coldsync.Cmd.Answers.DbList.db_entry_bytes
list_answered = refl

listed_size : length listed ≡ 100
unfolding coldsync.Cmd.Answers.DbList.db_entry_bytes
listed_size = refl

dlp_read_db_list_lem_example :
    dlp_read_db_list
      (bringing list_response)
      0xc0
      0
      3
      (record { last_index = 0; oflags = 0; num = 0; dbs = [] })
      here
    ≡ (
      ok (0, record { last_index = 5; oflags = 0x80; num = 2; dbs = db ∷ db ∷ [] }),
      answered_with 0x16 0 (the_arg listed) here,
    )
dlp_read_db_list_lem_example =
    dlp_read_db_list_lem (bringing list_response) 0xc0 0 3 5 0x80 (entry ∷ entry ∷ [])
      (record { last_index = 0; oflags = 0; num = 0; dbs = [] }) here here (omega arith)
      (entry-IsEntry, (entry-IsEntry, tt))
      (answering 0x16 (the_arg (0xc0 ∷ 0 ∷ uword_bytes 3)) 0 (the_arg listed)
        (0x16 ∷ 1 ∷ 0x20 ∷ 4 ∷ 0xc0 ∷ 0 ∷ uword_bytes 3) list_response list_request list_answered
        (omega arith) (omega arith) (omega arith)
        (record { id = omega arith; size = omega (arith, listed_size) }, tt))

-- Two identifiers, into an array with room for three.
abbrev ids : List ℕ
ids = uword_bytes 2 ++ (udword_bytes 8 ++ udword_bytes 9)

abbrev ids_request : List ℕ
ids_request = 1 ∷ 0 ∷ 0 ∷ 0 ∷ 0 ∷ 3 ∷ []

abbrev ids_response : List ℕ
ids_response = 0xb1 ∷ 1 ∷ 0 ∷ 0 ∷ 0x20 ∷ 10 ∷ ids

id_lists_stuck_example :
    id_lists 9 3
      (record { id = 0x21; payload = [] } ∷ record { id = 0x20; payload = 0 ∷ 0 ∷ [] } ∷ [])
      0
      (0, [])
      here
    ≡ (stuck, here)
id_lists_stuck_example =
    id_lists_stuck 9 3 (record { id = 0x21; payload = [] }) [] [] (0, []) here refl
