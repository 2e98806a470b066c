-- ===== src/Pdb/Header.antt =====
-- The header of a database file: pdb_LoadHeader, and the part of pdb_Write that lays it out.
use coldsync.Base.{
  [], ℕ, ◌+◌, ◌*◌, ltb, if◌then◌else◌, bit_and, Option, none, some, List, length, take, drop,
}
use coldsync.Base.Maybe.{◌>>=◌}
use coldsync.Bytes.{get_uword, get_udword, put_uword, put_udword}
use coldsync.Pdb.{Pdb, is_rsrc_db}

abbrev pub pdb_dbnamelen : ℕ
pdb_dbnamelen = 32

abbrev pub pdb_header_len : ℕ
pdb_header_len = 72

abbrev pub pdb_recordlist_len : ℕ
pdb_recordlist_len = 6

abbrev pub pdb_recordix_len : ℕ
pdb_recordix_len = 8

abbrev pub pdb_resourceix_len : ℕ
pdb_resourceix_len = 10

-- The fields behind the name, which take up the rest of the 72 bytes.
unfoldable pub parse_fields : List ℕ → Pdb → Option (Pdb × List ℕ)
unfolding get_uword get_udword
parse_fields rptr db = do
  (attributes, rptr) ← get_uword rptr
  (version, rptr) ← get_uword rptr
  (ctime, rptr) ← get_udword rptr
  (mtime, rptr) ← get_udword rptr
  (baktime, rptr) ← get_udword rptr
  (modnum, rptr) ← get_udword rptr
  (appinfo_offset, rptr) ← get_udword rptr
  (sortinfo_offset, rptr) ← get_udword rptr
  (type, rptr) ← get_udword rptr
  (creator, rptr) ← get_udword rptr
  (unique_id_seed, rptr) ← get_udword rptr
  some (
    record db {
      attributes = attributes;
      version = version;
      ctime = ctime;
      mtime = mtime;
      baktime = baktime;
      modnum = modnum;
      appinfo_offset = appinfo_offset;
      sortinfo_offset = sortinfo_offset;
      type = type;
      creator = creator;
      unique_id_seed = unique_id_seed;
    },
    rptr,
  )

-- The database, and what follows the header in the file.
unfoldable pub pdb_load_header : List ℕ → Pdb → Option (Pdb × List ℕ)
unfolding parse_fields
pdb_load_header file db =
    if ltb (length file) pdb_header_len
    then none
    else parse_fields (drop pdb_dbnamelen file) (record db { name = take pdb_dbnamelen file })

-- The offset of what follows the index, of the sort block, and of the first record.
unfoldable pub first_offset : Pdb → ℕ
unfolding is_rsrc_db
first_offset db =
    pdb_header_len
    + pdb_recordlist_len
    + db.numrecs * (if is_rsrc_db db then pdb_resourceix_len else pdb_recordix_len)
    + 2

abbrev pub block_len : Option (List ℕ) → ℕ
block_len none = 0
block_len (some block) = length block

abbrev pub offset_of : Option (List ℕ) → ℕ → ℕ
offset_of none offset = 0
offset_of (some block) offset = offset

-- The name of a database has 32 bytes; the mark of an open database is not written.
unfoldable pub header_bytes : Pdb → List ℕ
unfolding put_uword put_udword first_offset
header_bytes db =
    let w = put_uword (take pdb_dbnamelen db.name) (bit_and db.attributes 0x7fff) in
    let w = put_uword w db.version in
    let w = put_udword w db.ctime in
    let w = put_udword w db.mtime in
    let w = put_udword w db.baktime in
    let w = put_udword w db.modnum in
    let w = put_udword w (offset_of db.appinfo (first_offset db)) in
    let w = put_udword w (offset_of db.sortinfo (first_offset db + block_len db.appinfo)) in
    let w = put_udword w db.type in
    let w = put_udword w db.creator in put_udword w db.unique_id_seed

-- The header of the index: pdb_LoadRecListHeader, and what pdb_Write writes, where the first number is 0.
unfoldable pub pdb_load_rec_list_header : List ℕ → Pdb → Option (Pdb × List ℕ)
unfolding get_uword get_udword
pdb_load_rec_list_header file db = if ltb (length file) pdb_recordlist_len then none else do
  (next_reclist_id, rptr) ← get_udword file
  (numrecs, rptr) ← get_uword rptr
  some (record db { next_reclist_id = next_reclist_id; numrecs = numrecs }, rptr)

unfoldable pub list_header_bytes : Pdb → List ℕ
unfolding put_uword put_udword
list_header_bytes db = put_uword (put_udword [] 0) db.numrecs
