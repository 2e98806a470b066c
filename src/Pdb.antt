-- ===== src/Pdb.antt =====
-- libpdb/pdb.c and include/pdb.h: databases, and the lists of their records. A record stands in the
-- memory at an address, by which a program points to it; the list has the order of the `next` fields.
pub mod Attributes
pub mod Memory
pub mod Ids
pub mod Unique
pub mod Maps
pub mod Header
pub mod HeaderLaws
pub mod Index
pub mod IndexLaws
pub mod File
use coldsync.Base.{
  ℕ, zero, suc, ◌+◌, ◌%◌, ◌^◌, ◌==◌, not, Bool, true, false, if◌then◌else◌, bit_and,
}
use coldsync.Base.{Option, none, some, List, [], ◌∷◌, ◌++◌}

abbrev pub pdb_attr_resdb : ℕ
pdb_attr_resdb = 0x0001

abbrev pub pdb_rec_expunged : ℕ
pdb_rec_expunged = 0x80

abbrev pub pdb_rec_dirty : ℕ
pdb_rec_dirty = 0x40

abbrev pub pdb_rec_deleted : ℕ
pdb_rec_deleted = 0x20

abbrev pub pdb_rec_private : ℕ
pdb_rec_private = 0x10

abbrev pub pdb_rec_archive : ℕ
pdb_rec_archive = 0x08

-- `struct pdb_record`; the length of the data is that of `payload`.
pub record PdbRecord : Type 0 where
  pub addr : ℕ
  pub offset : ℕ
  pub flags : ℕ
  pub category : ℕ
  pub id : ℕ
  pub payload : List ℕ

-- `struct pdb_resource`
pub record PdbResource : Type 0 where
  pub addr : ℕ
  pub offset : ℕ
  pub type : ℕ
  pub id : ℕ
  pub payload : List ℕ

-- `struct pdb`. The union of the two lists is a list for each; the attributes say which one counts.
pub record Pdb : Type 0 where
  pub name : List ℕ
  pub attributes : ℕ
  pub version : ℕ
  pub ctime : ℕ
  pub mtime : ℕ
  pub baktime : ℕ
  pub modnum : ℕ
  pub appinfo_offset : ℕ
  pub sortinfo_offset : ℕ
  pub type : ℕ
  pub creator : ℕ
  pub unique_id_seed : ℕ
  pub next_reclist_id : ℕ
  pub numrecs : ℕ
  pub appinfo : Option (List ℕ)
  pub sortinfo : Option (List ℕ)
  pub recs : List PdbRecord
  pub rsrcs : List PdbResource

unfoldable pub is_rsrc_db : Pdb → Bool
is_rsrc_db db = not (bit_and db.attributes pdb_attr_resdb == 0)

-- `numrecs` is a uword.
abbrev pub one_more : ℕ → ℕ
one_more n = (n + 1) % 2 ^ 16

abbrev pub one_less : ℕ → ℕ
one_less n = (n + 65535) % 2 ^ 16

unfoldable pub find_by_id : ℕ → List PdbRecord → Option PdbRecord
find_by_id id [] = none
find_by_id id (rec ∷ recs) = if rec.id == id then some rec else find_by_id id recs

unfoldable pub pdb_find_record_by_id : Pdb → ℕ → Option PdbRecord
unfolding find_by_id
pdb_find_record_by_id db id = find_by_id id db.recs

-- The walk looks at the end of the list before each step, but not after the last one.
unfoldable pub nth_record : ℕ → List PdbRecord → Option PdbRecord
nth_record zero [] = none
nth_record zero (rec ∷ recs) = some rec
nth_record (suc i) [] = none
nth_record (suc i) (rec ∷ recs) = nth_record i recs

unfoldable pub pdb_find_record_by_index : Pdb → ℕ → Option PdbRecord
unfolding nth_record
pdb_find_record_by_index db index = nth_record index db.recs

-- The list without the first record of that ID, and whether there was one.
unfoldable pub delete_by_id : ℕ → List PdbRecord → List PdbRecord
delete_by_id id [] = []
delete_by_id id (rec ∷ recs) = if rec.id == id then recs else rec ∷ delete_by_id id recs

abbrev pub is_some : Option PdbRecord → Bool
is_some none = false
is_some (some rec) = true

-- `none` is the -1 of a resource database, which is left as it is.
unfoldable pub pdb_delete_record_by_id : Pdb → ℕ → Option Pdb
unfolding is_rsrc_db delete_by_id find_by_id
pdb_delete_record_by_id db id =
    if is_rsrc_db db
    then none
    else some (record db {
      recs = delete_by_id id db.recs;
      numrecs = (if is_some (find_by_id id db.recs) then one_less db.numrecs else db.numrecs);
    })

unfoldable pub pdb_append_record : Pdb → PdbRecord → Option Pdb
unfolding is_rsrc_db
pdb_append_record db newrec =
    if is_rsrc_db db
    then none
    else some (record db { recs = db.recs ++ (newrec ∷ []); numrecs = one_more db.numrecs })

unfoldable pub pdb_append_resource : Pdb → PdbResource → Option Pdb
unfolding is_rsrc_db
pdb_append_resource db newrsrc =
    if not (is_rsrc_db db)
    then none
    else some (record db { rsrcs = db.rsrcs ++ (newrsrc ∷ []); numrecs = one_more db.numrecs })

-- The record at an address, and the list with that record changed in place.
unfoldable pub at_addr : ℕ → List PdbRecord → Option PdbRecord
at_addr a [] = none
at_addr a (rec ∷ recs) = if rec.addr == a then some rec else at_addr a recs

unfoldable pub update_at : ℕ → (PdbRecord → PdbRecord) → List PdbRecord → List PdbRecord
update_at a f [] = []
update_at a f (rec ∷ recs) = if rec.addr == a then f rec ∷ recs else rec ∷ update_at a f recs

-- The list with a record behind the one at an address.
unfoldable pub insert_after : ℕ → PdbRecord → List PdbRecord → List PdbRecord
insert_after prev newrec [] = []
insert_after prev newrec (rec ∷ recs) =
    if rec.addr == prev then rec ∷ newrec ∷ recs else rec ∷ insert_after prev newrec recs

-- `prev` is the address of a record, or NULL. `none` where no record of the list has that address: the
-- new record would hang on a record that is in no list, or on freed memory.
unfoldable pub pdb_insert_record : Pdb → Option ℕ → PdbRecord → Option Pdb
unfolding insert_after at_addr
pdb_insert_record db none newrec =
    some (record db { recs = newrec ∷ db.recs; numrecs = one_more db.numrecs })
pdb_insert_record db (some prev) newrec =
    if is_some (at_addr prev db.recs)
    then some (record db { recs = insert_after prev newrec db.recs; numrecs = one_more db.numrecs })
    else none
