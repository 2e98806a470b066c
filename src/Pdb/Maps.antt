-- ===== src/Pdb/Maps.antt =====
-- The operations on the records of a database, as operations on a map from IDs to contents.
use coldsync.Base.{ℕ, ◌+◌, ◌%◌, ◌^◌, ◌≡◌, refl, sym, ◌∙◌, arith, ◌==◌, if◌then◌else◌, false}
use coldsync.Base.{Option, none, some, List, [], ◌∷◌, ◌++◌, length}
use coldsync.Pdb.{
  Pdb, PdbRecord, is_rsrc_db, find_by_id, delete_by_id, at_addr, insert_after, is_some, one_less,
  one_more, pdb_find_record_by_id, pdb_delete_record_by_id, pdb_append_record, pdb_insert_record,
}
use coldsync.Pdb.Ids.{
  Content, content, map_content, lookup, lookup-eq-find, Unique, lookup-delete_by_id, lookup-append,
}
use coldsync.Pdb.Unique.{
  Unique-delete_by_id, Unique-append, Unique-insert_after, lookup-insert_after,
}

-- A database of records: their IDs are unique and `numrecs`, a uword, counts them.
abbrev pub IsValid : Pdb → Type 0
IsValid db = (is_rsrc_db db ≡ false) × Unique db.recs × (db.numrecs ≡ length db.recs % 2 ^ 16)

abbrev pub found : Pdb → ℕ → Option Content
found db i = map_content (pdb_find_record_by_id db i)

found-lookup : (db : Pdb) (i : ℕ) → found db i ≡ lookup i db.recs
unfolding pdb_find_record_by_id
found-lookup db i = sym (lookup-eq-find i db.recs)

length-delete_by_id :
    (id : ℕ) (recs : List PdbRecord)
    → length recs ≡ length (delete_by_id id recs) + (if is_some (find_by_id id recs) then 1 else 0)
unfolding delete_by_id find_by_id
length-delete_by_id id [] = refl
length-delete_by_id id (rec ∷ recs) = ground (arith, length-delete_by_id id recs)

length-insert_after :
    (prev : ℕ) (new : PdbRecord) (recs : List PdbRecord) (l : PdbRecord)
    → at_addr prev recs ≡ some l
    → length (insert_after prev new recs) ≡ length recs + 1
unfolding insert_after at_addr
length-insert_after prev new [] l e = cc
length-insert_after prev new (rec ∷ recs) l e = ground (arith, length-insert_after prev new recs l)

length-append_one :
    (recs : List PdbRecord) (new : PdbRecord) → length (recs ++ (new ∷ [])) ≡ length recs + 1
length-append_one [] new = refl
length-append_one (rec ∷ recs) new = ground (arith, length-append_one recs new)

abbrev without : ℕ → Pdb → Pdb
without id db = record db {
  recs = delete_by_id id db.recs;
  numrecs = (if is_some (find_by_id id db.recs) then one_less db.numrecs else db.numrecs);
}

abbrev with_one_more : List PdbRecord → Pdb → Pdb
with_one_more recs db = record db { recs = recs; numrecs = one_more db.numrecs }

-- In a valid database, pdb_DeleteRecordByID leaves a valid database, in which a search for an ID finds
-- the contents that it found before, and nothing for the ID that was deleted.
pub pdb_delete_record_by_id_lem :
    (db : Pdb) (id : ℕ)
    → IsValid db
    → (db' : Pdb) × (pdb_delete_record_by_id db id ≡ some db')
      × IsValid db'
      × ((i : ℕ) → found db' i ≡ (if id == i then none else found db i))
unfolding pdb_delete_record_by_id pdb_find_record_by_id is_rsrc_db
pdb_delete_record_by_id_lem db id (records, unique, count) = (
  without id db,
  rw records,
  (
    records,
    Unique-delete_by_id id db.recs unique,
    ground (arith, count, length-delete_by_id id db.recs),
  ),
  λ i.
      rw (sym (lookup-eq-find i (delete_by_id id db.recs)), sym (lookup-eq-find i db.recs))
        (lookup-delete_by_id i id db.recs unique),
)

-- In a valid database without a record of its ID, pdb_AppendRecord leaves a valid database, in which a
-- search for that ID finds the content of the new record, and any other what it found before.
pub pdb_append_record_lem :
    (db : Pdb) (new : PdbRecord)
    → IsValid db
    → found db new.id ≡ none
    → (db' : Pdb) × (pdb_append_record db new ≡ some db')
      × IsValid db'
      × ((i : ℕ) → found db' i ≡ (if new.id == i then some (content new) else found db i))
unfolding pdb_append_record pdb_find_record_by_id is_rsrc_db
pdb_append_record_lem db new (records, unique, count) free = (
  with_one_more (db.recs ++ (new ∷ [])) db,
  rw records,
  (
    records,
    Unique-append db.recs new unique gap,
    rw (length-append_one db.recs new) (omega (arith, count)),
  ),
  λ i.
      rw (sym (lookup-eq-find i (db.recs ++ (new ∷ []))), sym (lookup-eq-find i db.recs))
        (lookup-append i db.recs new gap),
)
  where
    gap : lookup new.id db.recs ≡ none
    gap = lookup-eq-find new.id db.recs ∙ free

-- In a valid database without a record of the new record's ID, pdb_InsertRecord behind a record of the
-- database leaves a valid database, in which a search for that ID finds the content of the new record,
-- and a search for any other what it found before.
pub pdb_insert_record_lem :
    (db : Pdb) (prev : ℕ) (l new : PdbRecord)
    → IsValid db
    → at_addr prev db.recs ≡ some l
    → found db new.id ≡ none
    → (db' : Pdb) × (pdb_insert_record db (some prev) new ≡ some db')
      × IsValid db'
      × ((i : ℕ) → found db' i ≡ (if new.id == i then some (content new) else found db i))
unfolding pdb_insert_record pdb_find_record_by_id is_rsrc_db
pdb_insert_record_lem db prev l new (records, unique, count) at_prev free = (
  with_one_more (insert_after prev new db.recs) db,
  rw at_prev,
  (
    records,
    Unique-insert_after prev new db.recs l unique at_prev gap,
    rw (length-insert_after prev new db.recs l at_prev) (omega (arith, count)),
  ),
  λ i.
      rw (sym (lookup-eq-find i (insert_after prev new db.recs)), sym (lookup-eq-find i db.recs))
        (lookup-insert_after i prev new db.recs l at_prev gap),
)
  where
    gap : lookup new.id db.recs ≡ none
    gap = lookup-eq-find new.id db.recs ∙ free
