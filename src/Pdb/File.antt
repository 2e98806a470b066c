-- ===== src/Pdb/File.antt =====
-- libpdb/pdb.c: a whole database file, pdb_Read and pdb_Write. A file is the list of its bytes. The blocks
-- and the data are read at offsets from its start, so that the position that a function leaves does
-- not matter to the next one. A disk that is full is not modelled: what is written is in the file.
pub mod Blocks
pub mod Records
pub mod Resources
pub mod DataLaws
use coldsync.Base.{ℕ, ◌+◌, ◌%◌, ◌^◌, if◌then◌else◌, Option, none, some, List, [], ◌∷◌, ◌++◌, length}
use coldsync.Base.Maybe.{◌>>=◌}
use coldsync.Pdb.{Pdb, is_rsrc_db}
use coldsync.Pdb.Memory.{Memory, found, after_malloc}
use coldsync.Pdb.Header.{
  pdb_load_header, pdb_load_rec_list_header, header_bytes, list_header_bytes, first_offset,
  block_len,
}
use coldsync.Pdb.Index.{pdb_load_rec_index, index_bytes}
use Blocks.{pdb_load_app_block, pdb_load_sort_block, block_bytes}
use Records.{pdb_load_records, data_bytes}
use Resources.{pdb_load_rsrc_index, pdb_load_resources, rsrc_index_bytes, rsrc_data_bytes}

-- The length goes out as a uword, so that the -1 of a failure does not either.
unfoldable pub get_file_length : List ℕ → ℕ
get_file_length file = length file % 2 ^ 16

-- All zeros.
abbrev pub zero_pdb : Pdb
zero_pdb = record {
  name = [];
  attributes = 0;
  version = 0;
  ctime = 0;
  mtime = 0;
  baktime = 0;
  modnum = 0;
  appinfo_offset = 0;
  sortinfo_offset = 0;
  type = 0;
  creator = 0;
  unique_id_seed = 0;
  next_reclist_id = 0;
  numrecs = 0;
  appinfo = none;
  sortinfo = none;
  recs = [];
  rsrcs = [];
}

unfoldable pub new_pdb : Memory → Option Pdb × Memory
new_pdb m = (if found m then some zero_pdb else none, after_malloc m)

unfoldable pub load_index : Pdb → List ℕ → Memory → Option (Pdb × List ℕ × Memory)
unfolding pdb_load_rsrc_index pdb_load_rec_index
load_index db file m =
    if is_rsrc_db db then pdb_load_rsrc_index db file m else pdb_load_rec_index db file m

unfoldable pub load_data : List ℕ → ℕ → Pdb → Memory → Option (Pdb × Memory)
unfolding pdb_load_resources pdb_load_records
load_data file size db m =
    if is_rsrc_db db then pdb_load_resources file size db m else pdb_load_records file size db m

unfoldable pub pdb_read : List ℕ → Memory → Option (Pdb × Memory)
unfolding new_pdb get_file_length load_index load_data pdb_load_app_block pdb_load_sort_block
pdb_read file m = do
  db ← (new_pdb m).0
  (db, rest) ← pdb_load_header file db
  (db, rest) ← pdb_load_rec_list_header rest db
  (db, rest, m) ← load_index db rest (new_pdb m).1
  (db, m) ← pdb_load_app_block file (get_file_length file) db m
  (db, m) ← pdb_load_sort_block file (get_file_length file) db m
  load_data file (get_file_length file) db m

-- The offset of the first record or resource.
abbrev pub data_offset : Pdb → ℕ
data_offset db = (first_offset db + block_len db.appinfo + block_len db.sortinfo) % 2 ^ 32

unfoldable pub write_index : Pdb → List ℕ
unfolding rsrc_index_bytes
write_index db =
    if is_rsrc_db db
    then rsrc_index_bytes (data_offset db) db.rsrcs
    else index_bytes (data_offset db) db.recs

unfoldable pub write_data : Pdb → List ℕ
unfolding rsrc_data_bytes data_bytes
write_data db = if is_rsrc_db db then rsrc_data_bytes db.rsrcs else data_bytes db.recs

unfoldable pub pdb_write : Pdb → List ℕ
unfolding write_index write_data block_bytes
pdb_write db =
    header_bytes db
    ++ (list_header_bytes db
        ++ (write_index db
            ++ (0 ∷ 0 ∷ (block_bytes db.appinfo ++ (block_bytes db.sortinfo ++ write_data db)))))
