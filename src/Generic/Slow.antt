-- ===== src/Generic/Slow.antt =====
-- What `SlowSync` does to the records, once the database of the Palm is there: it walks over the records
-- of that database, and then over the local ones. The pointer to the next record is read before a
-- record is looked at, and the first record of its ID, which may then be deleted, is not behind it: so
-- the walk is the one over the records that are there at the start.
use coldsync.Base.{
  ℕ, not, Bool, ◌&&◌, ◌||◌, if◌then◌else◌, bit_or, Option, none, some, List, [], ◌∷◌, map,
}
use coldsync.Pdb.{
  PdbRecord, pdb_rec_dirty, at_addr, update_at, is_some, pdb_find_record_by_id,
  pdb_delete_record_by_id,
}
use coldsync.Pdb.Memory.{pdb_copy_record}
use coldsync.Generic.{
  archive_record, load, change, delete_local, append_local, or_fail, or_unchanged, upload,
  sync_record,
}
use coldsync.Generic.Remote.{Palm}
use coldsync.Generic.Monad.{
  Conduit, Outcome, ok, err, fault, M, ◌>>=◌, ◌>>◌, pure, gets, modify, valid,
}
use coldsync.Generic.Records.{
  expunged, dirty, deleted, archive, clear_status_flags, compare_rec, is_equal,
}

-- Whether a record was deleted and is not marked to leave no trace.
unfoldable pub to_archive : PdbRecord → Bool
unfolding deleted archive expunged
to_archive rec = deleted rec && (archive rec || not (expunged rec))

module _ {P : Type 0} where
  unfoldable pub for_each : List ℕ → (ℕ → M P (Unit {0})) → M P (Unit {0})
  for_each [] f = pure tt
  for_each (a ∷ as') f = f a >> for_each as' f

  -- A result that is not looked at.
  abbrev pub ignore_result : Outcome (Unit {0}) × Conduit P → Outcome (Unit {0}) × Conduit P
  ignore_result (ok a, s) = (ok a, s)
  ignore_result (err, s) = (ok tt, s)
  ignore_result (fault, s) = (fault, s)

  abbrev pub ignoring : M P (Unit {0}) → M P (Unit {0})
  ignoring m s = ignore_result (m s)

  unfoldable pub load_remote : ℕ → M P PdbRecord
  load_remote a s = valid (at_addr a s.remotedb.recs) s

  unfoldable pub change_remote : ℕ → (PdbRecord → PdbRecord) → M P (Unit {0})
  unfolding load_remote
  change_remote a f = do
    rec ← load_remote a
    modify (λ s. record s { remotedb = record s.remotedb { recs = update_at a f s.remotedb.recs } })

  -- A copy of the downloaded record at an address.
  unfoldable pub copy_downloaded : ℕ → M P PdbRecord
  unfolding load_remote
  copy_downloaded a = do
    rec ← load_remote a
    answer ← gets (λ s. pdb_copy_record rec s.memory)
    modify (λ s. record s { memory = answer.1 })
    or_fail answer.0

  -- A downloaded record that is not in the local database.
  unfoldable pub slow_new : ℕ → PdbRecord → M P (Unit {0})
  unfolding archive_record append_local change_remote copy_downloaded
  slow_new a remoterec =
      if to_archive remoterec
      then change_remote a clear_status_flags >> archive_record (clear_status_flags remoterec)
      else if expunged remoterec
      then modify (λ s. record s {
        remotedb = or_unchanged (pdb_delete_record_by_id s.remotedb remoterec.id) s.remotedb;
      })
      else do change_remote a clear_status_flags; newrec ← copy_downloaded a; append_local newrec

module _ (palm : Palm) where
  -- One that is, at an address. The dirty flag of the remote record is not to be trusted if it is not
  -- set. The result of `SyncRecord` is not looked at.
  unfoldable pub slow_known : ℕ → PdbRecord → PdbRecord → M palm.State (Unit {0})
  unfolding load_remote change_remote sync_record compare_rec
  slow_known a localrec remoterec = do
    if not (dirty remoterec) && not (is_equal (compare_rec localrec remoterec))
        then change_remote a (λ r. record r { flags = bit_or r.flags pdb_rec_dirty })
        else pure tt
    rec ← load_remote a
    ignoring (sync_record palm localrec.addr rec)
    change_remote a clear_status_flags

  unfoldable pub slow_found : ℕ → PdbRecord → Option PdbRecord → M palm.State (Unit {0})
  unfolding slow_new slow_known
  slow_found a remoterec none = slow_new a remoterec
  slow_found a remoterec (some localrec) = slow_known a localrec remoterec

  unfoldable pub slow_remote : ℕ → M palm.State (Unit {0})
  unfolding load_remote slow_found pdb_find_record_by_id
  slow_remote a = do
    remoterec ← load_remote a
    localrec ← gets (λ s. pdb_find_record_by_id s.localdb remoterec.id)
    slow_found a remoterec localrec

  -- A local record that was not downloaded.
  unfoldable pub slow_only : ℕ → PdbRecord → M palm.State (Unit {0})
  unfolding archive_record change delete_local upload
  slow_only a localrec =
      if to_archive localrec
      then change a clear_status_flags >> archive_record (clear_status_flags localrec)
      else if expunged localrec
      then delete_local a
      else if dirty localrec
      then change a clear_status_flags >> upload palm a localrec.id
      else archive_record localrec >> delete_local a

  unfoldable pub slow_local : ℕ → M palm.State (Unit {0})
  unfolding load slow_only pdb_find_record_by_id
  slow_local a = do
    localrec ← load a
    remoterec ← gets (λ s. pdb_find_record_by_id s.remotedb localrec.id)
    if is_some remoterec then pure tt else slow_only a localrec

  unfoldable pub slow_records : M palm.State (Unit {0})
  unfolding for_each slow_remote slow_local
  slow_records = do
    remote ← gets (λ s. map (λ r. r.addr) s.remotedb.recs)
    for_each remote slow_remote
    local ← gets (λ s. map (λ r. r.addr) s.localdb.recs)
    for_each local slow_local
