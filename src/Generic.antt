-- ===== src/Generic.antt =====
-- src/conduits/generic.cc, from which src/GenericConduit.cc differs only in the header that it includes:
-- the conduit that syncs a database with its backup file.
pub mod Remote
pub mod Monad
pub mod Records
pub mod Steps
pub mod Agree
pub mod Ready
pub mod Order
pub mod Converges
pub mod Safe
pub mod Survives
pub mod Archived
pub mod Freed
pub mod Slow
pub mod Fast
pub mod Walks
pub mod Frames
pub mod FastWalk
pub mod Behind
pub mod First
pub mod FirstWalk
use coldsync.Base.{ℕ, ◌==◌, not, Bool, true, false, if◌then◌else◌, bit_and}
use coldsync.Base.{Option, none, some, List, [], ◌∷◌, ◌++◌}
use coldsync.Pdb.{
  Pdb, PdbRecord, pdb_rec_private, at_addr, update_at, pdb_delete_record_by_id, pdb_append_record,
  pdb_insert_record,
}
use coldsync.Pdb.Memory.{Memory, new_record}
use Remote.{Palm, DlpStat, noerr, notfound, other}
use Monad.{
  Conduit, Outcome, ok, err, fault, M, ◌>>=◌, ◌>>◌, pure, fail, faulty, gets, modify, valid,
}
use Records.{
  clear_status_flags, compare_rec, is_equal, same_data, Kind, archived, gone, modified, clean, kind,
}

-- Whether the next write to the archive succeeds.
abbrev pub written : List Bool → Bool
written [] = true
written (b ∷ rest) = b

abbrev pub rest_of : List Bool → List Bool
rest_of [] = []
rest_of (b ∷ rest) = rest

abbrev pub or_unchanged : Option Pdb → Pdb → Pdb
or_unchanged none db = db
or_unchanged (some db') db = db'

module _ {P : Type 0} where
  -- The archive keeps the data of a record. No caller looks at the result.
  unfoldable pub archive_record : PdbRecord → M P (Unit {0})
  archive_record rec = modify (λ s. record s {
    archive = (if written s.writes then s.archive ++ (rec.payload ∷ []) else s.archive);
    writes = rest_of s.writes;
  })

  -- The record of the local database that a pointer points to, and a change of it.
  unfoldable pub load : ℕ → M P PdbRecord
  load a s = valid (at_addr a s.localdb.recs) s

  unfoldable pub change : ℕ → (PdbRecord → PdbRecord) → M P (Unit {0})
  unfolding load
  change a f = do
    rec ← load a
    modify (λ s. record s { localdb = record s.localdb { recs = update_at a f s.localdb.recs } })

  -- The result of pdb_DeleteRecordByID and pdb_AppendRecord is not looked at here.
  unfoldable pub delete_local : ℕ → M P (Unit {0})
  unfolding load
  delete_local a = do
    rec ← load a
    modify (λ s. record s {
      localdb = or_unchanged (pdb_delete_record_by_id s.localdb rec.id) s.localdb;
    })

  unfoldable pub append_local : PdbRecord → M P (Unit {0})
  append_local newrec =
      modify
        (λ s. record s { localdb = or_unchanged (pdb_append_record s.localdb newrec) s.localdb })

  unfoldable pub insert_local : ℕ → PdbRecord → M P (Unit {0})
  insert_local a newrec = do
    db ← gets (λ s. s.localdb)
    db' ← valid (pdb_insert_record db (some a) newrec)
    modify (λ s. record s { localdb = db' })

  abbrev pub or_fail : Option PdbRecord → M P PdbRecord
  or_fail none = fail
  or_fail (some rec) = pure rec

  -- A copy of the remote record, with these flags.
  unfoldable pub copy_remote : ℕ → PdbRecord → M P PdbRecord
  copy_remote flags rec = do
    answer ← gets (λ s. new_record flags rec.category rec.id rec.payload s.memory)
    modify (λ s. record s { memory = answer.1 })
    or_fail answer.0

module _ (palm : Palm) where
  abbrev is_noerr : DlpStat → Bool
  is_noerr noerr = true
  is_noerr notfound = false
  is_noerr other = false

  -- DlpDeleteRecord; an error counts only if the connection is lost.
  unfoldable pub delete_remote : ℕ → M palm.State (Unit {0})
  delete_remote id = do
    answer ← gets (λ s. palm.delete_record id s.palm)
    modify (λ s. record s { palm = answer.1 })
    if is_noerr answer.0
        then pure tt
        else do online ← gets (λ s. palm.is_online s.palm); if online then pure tt else fail

  -- DlpWriteRecord of a local record under an ID, and the ID that it got.
  unfoldable pub upload : ℕ → ℕ → M palm.State (Unit {0})
  unfolding load change
  upload a id = do
    rec ← load a
    answer ← gets (λ s. palm.write_record id rec.flags rec.category rec.payload s.palm)
    modify (λ s. record s { palm = answer.2 })
    if not (is_noerr answer.0) then fail else change a (λ r. record r { id = answer.1 })

  -- `SyncRecord` for a remote record that was deleted, and is to be archived.
  unfoldable pub sync_archived : Kind → ℕ → PdbRecord → PdbRecord → M palm.State (Unit {0})
  unfolding archive_record delete_remote delete_local change upload same_data
  sync_archived archived a localrec remoterec = do
    if same_data localrec remoterec
        then archive_record localrec
        else archive_record localrec >> archive_record remoterec
    delete_remote remoterec.id
    delete_local a
  sync_archived gone a localrec remoterec = do
    archive_record remoterec
    delete_remote remoterec.id
    delete_local a
  sync_archived modified a localrec remoterec = do
    archive_record remoterec
    change a clear_status_flags
    upload a localrec.id
  sync_archived clean a localrec remoterec = do archive_record remoterec; delete_local a

  -- For a remote record that was deleted without a trace.
  unfoldable pub sync_gone : Kind → ℕ → PdbRecord → PdbRecord → M palm.State (Unit {0})
  unfolding archive_record delete_remote delete_local change upload
  sync_gone archived a localrec remoterec = do
    change a clear_status_flags
    archive_record localrec
    delete_local a
  sync_gone gone a localrec remoterec = delete_local a
  sync_gone modified a localrec remoterec = do
    delete_remote remoterec.id
    change a clear_status_flags
    upload a localrec.id
  sync_gone clean a localrec remoterec = delete_local a

  -- For a remote record that has changed. The first case clears the flags of the record that it has
  -- just deleted, and not those of the copy.
  unfoldable pub sync_modified : Kind → ℕ → PdbRecord → PdbRecord → M palm.State (Unit {0})
  unfolding archive_record delete_local change upload copy_remote append_local insert_local
      compare_rec
  sync_modified archived a localrec remoterec = do
    change a clear_status_flags
    archive_record localrec
    delete_local a
    newrec ← copy_remote remoterec.flags remoterec
    change a clear_status_flags
    append_local newrec
  sync_modified gone a localrec remoterec = do
    delete_local a
    newrec ← copy_remote remoterec.flags remoterec
    append_local (clear_status_flags newrec)
  sync_modified modified a localrec remoterec =
      if is_equal (compare_rec localrec remoterec) then change a clear_status_flags else do
        change a clear_status_flags
        upload a 0
        newrec ← copy_remote (bit_and remoterec.flags pdb_rec_private) remoterec
        insert_local a newrec
  sync_modified clean a localrec remoterec = do
    newrec ← copy_remote remoterec.flags remoterec
    insert_local a (clear_status_flags newrec)
    delete_local a

  -- For a remote record that has not changed.
  unfoldable pub sync_clean : Kind → ℕ → PdbRecord → PdbRecord → M palm.State (Unit {0})
  unfolding archive_record delete_remote delete_local change upload
  sync_clean archived a localrec remoterec = do
    change a clear_status_flags
    archive_record localrec
    delete_local a
    delete_remote remoterec.id
  sync_clean gone a localrec remoterec = do delete_local a; delete_remote remoterec.id
  sync_clean modified a localrec remoterec = do change a clear_status_flags; upload a localrec.id
  sync_clean clean a localrec remoterec = pure tt

  unfoldable pub sync_kinds : Kind → Kind → ℕ → PdbRecord → PdbRecord → M palm.State (Unit {0})
  unfolding sync_archived sync_gone sync_modified sync_clean
  sync_kinds archived = sync_archived
  sync_kinds gone = sync_gone
  sync_kinds modified = sync_modified
  sync_kinds clean = sync_clean

  -- `SyncRecord` for the local record at an address and a remote one.
  unfoldable pub sync_record : ℕ → PdbRecord → M palm.State (Unit {0})
  unfolding load sync_kinds
  sync_record a remoterec = do
    localrec ← load a
    sync_kinds (kind remoterec) (kind localrec) a localrec remoterec
