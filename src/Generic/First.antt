-- ===== src/Generic/First.antt =====
-- What `FirstSync` does to the records of the downloaded database, which becomes the backup.
use coldsync.Base.{ℕ, if◌then◌else◌, map}
use coldsync.Pdb.{PdbRecord, pdb_delete_record_by_id}
use coldsync.Generic.{archive_record, or_unchanged}
use coldsync.Generic.Monad.{M, ◌>>=◌, ◌>>◌, gets, modify}
use coldsync.Generic.Records.{expunged, clear_status_flags}
use coldsync.Generic.Slow.{for_each, to_archive, load_remote, change_remote}

module _ {P : Type 0} where
  unfoldable pub first_cases : ℕ → PdbRecord → M P (Unit {0})
  unfolding archive_record change_remote
  first_cases a remoterec =
      if to_archive remoterec
      then change_remote a clear_status_flags >> archive_record (clear_status_flags remoterec)
      else if expunged remoterec
      then modify (λ s. record s {
        remotedb = or_unchanged (pdb_delete_record_by_id s.remotedb remoterec.id) s.remotedb;
      })
      else change_remote a clear_status_flags

  unfoldable pub first_remote : ℕ → M P (Unit {0})
  unfolding load_remote first_cases
  first_remote a = load_remote a >>= first_cases a

  unfoldable pub first_records : M P (Unit {0})
  unfolding for_each first_remote
  first_records = do
    remote ← gets (λ s. map (λ r. r.addr) s.remotedb.recs)
    for_each remote first_remote
