-- ===== src/Generic/Fast.antt =====
-- What `FastSync` does to the records: to each that the Palm says was modified, and then to the local
-- ones.
use coldsync.Base.{ℕ, if◌then◌else◌, Option, none, some, map}
use coldsync.Pdb.{Pdb, PdbRecord, pdb_find_record_by_id, pdb_append_record}
use coldsync.Generic.{archive_record, load, change, delete_local, upload, sync_record}
use coldsync.Generic.Remote.{Palm, DlpStat, noerr, notfound, other}
use coldsync.Generic.Monad.{M, ◌>>=◌, ◌>>◌, pure, fail, gets, modify}
use coldsync.Generic.Records.{expunged, dirty, archive, clear_status_flags}
use coldsync.Generic.Slow.{for_each, to_archive}

module _ {P : Type 0} where
  abbrev pub append_or_fail : Option Pdb → M P (Unit {0})
  append_or_fail none = fail
  append_or_fail (some db) = modify (λ s. record s { localdb = db })

  -- A record that the Palm has sent and that is not in the local database. The record itself goes there,
  -- not a copy.
  unfoldable pub fast_new : PdbRecord → M P (Unit {0})
  unfolding archive_record pdb_append_record
  fast_new remoterec =
      if archive remoterec
      then archive_record (clear_status_flags remoterec)
      else if expunged remoterec
      then pure tt
      else do
        db ← gets (λ s. s.localdb)
        append_or_fail (pdb_append_record db (clear_status_flags remoterec))

module _ (palm : Palm) where
  unfoldable pub fast_found : PdbRecord → Option PdbRecord → M palm.State (Unit {0})
  unfolding fast_new sync_record
  fast_found remoterec none = fast_new remoterec
  fast_found remoterec (some localrec) = sync_record palm localrec.addr remoterec

  unfoldable pub fast_remote : PdbRecord → M palm.State (Unit {0})
  unfolding fast_found pdb_find_record_by_id
  fast_remote remoterec = do
    localrec ← gets (λ s. pdb_find_record_by_id s.localdb remoterec.id)
    fast_found remoterec localrec

  -- What the Palm answers to the deletion of a local record: a record that is not there is deleted too;
  -- after any other error the local record stays.
  unfoldable pub fast_answer : ℕ → DlpStat → M palm.State (Unit {0})
  unfolding delete_local
  fast_answer a noerr = delete_local a
  fast_answer a notfound = delete_local a
  fast_answer a other = do
    online ← gets (λ s. palm.is_online s.palm)
    if online then pure tt else fail

  unfoldable pub fast_delete : ℕ → ℕ → M palm.State (Unit {0})
  unfolding fast_answer
  fast_delete a id = do
    answer ← gets (λ s. palm.delete_record id s.palm)
    modify (λ s. record s { palm = answer.1 })
    fast_answer a answer.0

  unfoldable pub fast_only : ℕ → PdbRecord → M palm.State (Unit {0})
  unfolding archive_record change upload fast_delete
  fast_only a localrec =
      if to_archive localrec
      then change a clear_status_flags
        >> (archive_record (clear_status_flags localrec) >> fast_delete a localrec.id)
      else if expunged localrec
      then fast_delete a localrec.id
      else if dirty localrec
      then change a clear_status_flags >> upload palm a localrec.id
      else pure tt

  unfoldable pub fast_local : ℕ → M palm.State (Unit {0})
  unfolding load fast_only
  fast_local a = load a >>= fast_only a

  -- The walk over the local database.
  unfoldable pub fast_records : M palm.State (Unit {0})
  unfolding for_each fast_local
  fast_records = do local ← gets (λ s. map (λ r. r.addr) s.localdb.recs); for_each local fast_local
