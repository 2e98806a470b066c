-- ===== src/Generic/Survives.antt =====
-- `SyncRecord` whatever the Palm and the memory answer: it uses no freed record, and a local record that
-- was modified survives.
use coldsync.Base.{ℕ, some, Bool-cases, ◌≡◌, ◌≢◌, ◌⊎◌, refl, inl, inr, bit_and}
use coldsync.Pdb.{PdbRecord, at_addr, pdb_rec_private}
use coldsync.Pdb.Ids.{Content, content}
use coldsync.Generic.{
  archive_record, load, change, delete_local, append_local, insert_local, copy_remote,
  delete_remote, upload, sync_archived, sync_gone, sync_modified, sync_clean, sync_kinds,
  sync_record,
}
use coldsync.Generic.Remote.{Palm}
use coldsync.Generic.Monad.{Conduit, ◌>>=◌, ◌>>◌, M}
use coldsync.Generic.Records.{
  Kind, archived, gone, modified, clean, kind, clear_status_flags, is_equal, compare_rec, same_data,
}
use coldsync.Generic.Safe.{
  Safe, Any, Has, Safe-Any, Safe-bind, Safe-then, change-Safe, delete_local-Safe, insert_local-Safe,
  copy_remote-Safe, delete_remote-Safe, upload-Safe,
}

module _ (palm : Palm) (a : ℕ) (c : Content) where
  abbrev Step : Type 0
  Step = M palm.State (Unit {0})

  archive-Safe :
      (rec : PdbRecord) (m : Step) (s : Conduit palm.State)
      → Has a c s
      → ((s' : Conduit palm.State) → Has a c s' → Safe Any (m s'))
      → Safe Any ((archive_record rec >> m) s)
  unfolding archive_record
  archive-Safe rec m s has rest = rest _ has

  clear-Safe : (s : Conduit palm.State) → Has a c s → Safe (Has a c) (change a clear_status_flags s)
  unfolding clear_status_flags
  clear-Safe s has = change-Safe a c clear_status_flags s (λ r. (refl, refl)) has

  clear_upload-Safe :
      (id : ℕ) (s : Conduit palm.State)
      → Has a c s
      → Safe (Has a c) ((change a clear_status_flags >> upload palm a id) s)
  clear_upload-Safe id s has =
      Safe-bind (Has a c) (change a clear_status_flags) (λ _. upload palm a id) s (clear-Safe s has)
        (λ _ s' has'. upload-Safe palm a c id s' has')

  clear_archive-Safe :
      (rec : PdbRecord) (m : Step) (s : Conduit palm.State)
      → Has a c s
      → ((s' : Conduit palm.State) → Has a c s' → Safe Any (m s'))
      → Safe Any ((change a clear_status_flags >> (archive_record rec >> m)) s)
  clear_archive-Safe rec m s has rest =
      Safe-then (Has a c) (change a clear_status_flags) (λ _. archive_record rec >> m) s
        (clear-Safe s has) (λ _ s' has'. archive-Safe rec m s' has' rest)

  delete_remote_local-Safe :
      (id : ℕ) (s : Conduit palm.State)
      → Has a c s
      → Safe Any ((delete_remote palm id >> delete_local a) s)
  delete_remote_local-Safe id s has =
      Safe-then (Has a c) (delete_remote palm id) (λ _. delete_local a) s
        (delete_remote-Safe palm (Has a c) id s has) (λ _ s' has'. delete_local-Safe a c s' has')

  modified-Safe :
      (kr : Kind) (l r : PdbRecord) (s : Conduit palm.State)
      → Has a c s
      → Safe (Has a c) (sync_kinds palm kr modified a l r s)
  unfolding sync_kinds sync_archived sync_gone sync_modified sync_clean archive_record
  modified-Safe archived l r s has = clear_upload-Safe l.id _ has
  modified-Safe gone l r s has =
      Safe-bind (Has a c) (delete_remote palm r.id)
        (λ _. change a clear_status_flags >> upload palm a l.id) s
        (delete_remote-Safe palm (Has a c) r.id s has) (λ _ s' has'. clear_upload-Safe l.id s' has')
  modified-Safe modified l r s has = elim (Bool-cases (is_equal (compare_rec l r))) [
    | inl same ↦ rw same (clear-Safe s has)
    | inr differ ↦ rw differ (
        Safe-bind (Has a c) (change a clear_status_flags) (λ _. upload palm a 0 >> copy) s
          (clear-Safe s has)
          λ _ s1 has1.
            Safe-bind (Has a c) (upload palm a 0) (λ _. copy) s1 (upload-Safe palm a c 0 s1 has1)
              λ _ s2 has2.
                Safe-bind (Has a c) (copy_remote flags r) (λ new. insert_local a new) s2
                  (copy_remote-Safe (Has a c) flags r s2 has2)
                  λ new s3 has3. insert_local-Safe a c new s3 has3)
  ]
    where
      flags : ℕ
      flags = bit_and r.flags pdb_rec_private

      copy : Step
      copy = copy_remote flags r >>= λ new. insert_local a new
  modified-Safe clean l r s has = clear_upload-Safe l.id s has

  delete_local_remote-Safe :
      (id : ℕ) (s : Conduit palm.State)
      → Has a c s
      → Safe Any ((delete_local a >> delete_remote palm id) s)
  delete_local_remote-Safe id s has =
      Safe-then Any (delete_local a) (λ _. delete_remote palm id) s (delete_local-Safe a c s has)
        (λ _ s' _. delete_remote-Safe palm Any id s' tt)

  archived-Safe :
      (kr : Kind) (l r : PdbRecord) (s : Conduit palm.State)
      → kr ≢ modified
      → Has a c s
      → Safe Any (sync_kinds palm kr archived a l r s)
  unfolding sync_kinds sync_archived sync_gone sync_modified sync_clean
  archived-Safe archived l r s other has = elim (Bool-cases (same_data l r)) [
    | inl same ↦ rw same (archive-Safe l both s has (delete_remote_local-Safe r.id))
    | inr differ ↦ rw differ (twice s has)
  ]
    where
      both : Step
      both = delete_remote palm r.id >> delete_local a

      twice :
          (s' : Conduit palm.State)
          → Has a c s'
          → Safe Any (((archive_record l >> archive_record r) >> both) s')
      twice s' has' = delete_remote_local-Safe r.id _ has'
  archived-Safe gone l r s other has =
      clear_archive-Safe l (delete_local a) s has (delete_local-Safe a c)
  archived-Safe modified l r s other has = absurd (other refl)
  archived-Safe clean l r s other has =
      clear_archive-Safe l (delete_local a >> delete_remote palm r.id) s has
        (delete_local_remote-Safe r.id)

  gone-Safe :
      (kr : Kind) (l r : PdbRecord) (s : Conduit palm.State)
      → Has a c s
      → Safe Any (sync_kinds palm kr gone a l r s)
  unfolding sync_kinds sync_archived sync_gone sync_modified sync_clean append_local
  gone-Safe archived l r s has =
      archive-Safe r (delete_remote palm r.id >> delete_local a) s has
        (delete_remote_local-Safe r.id)
  gone-Safe gone l r s has = delete_local-Safe a c s has
  gone-Safe modified l r s has =
      Safe-then Any (delete_local a)
        (λ _. copy_remote r.flags r >>= λ new. append_local (clear_status_flags new)) s
        (delete_local-Safe a c s has)
        (λ _ s1 _.
          Safe-then Any (copy_remote r.flags r) (λ new. append_local (clear_status_flags new)) s1
            (copy_remote-Safe Any r.flags r s1 tt) (λ new s2 _. tt))
  gone-Safe clean l r s has = delete_local_remote-Safe r.id s has

  clean-Safe :
      (kr : Kind) (l r : PdbRecord) (s : Conduit palm.State)
      → Has a c s
      → Safe Any (sync_kinds palm kr clean a l r s)
  unfolding sync_kinds sync_archived sync_gone sync_modified sync_clean
  clean-Safe archived l r s has = archive-Safe r (delete_local a) s has (delete_local-Safe a c)
  clean-Safe gone l r s has = delete_local-Safe a c s has
  clean-Safe modified l r s has =
      Safe-then (Has a c) (copy_remote r.flags r)
        (λ new. insert_local a (clear_status_flags new) >> delete_local a) s
        (copy_remote-Safe (Has a c) r.flags r s has)
        (λ new s1 has1.
          Safe-then (Has a c) (insert_local a (clear_status_flags new)) (λ _. delete_local a) s1
            (insert_local-Safe a c (clear_status_flags new) s1 has1)
            (λ _ s2 has2. delete_local-Safe a c s2 has2))
  clean-Safe clean l r s has = tt

-- For every answer of the Palm, of the archive and of the memory, where the local record is in the
-- database and was modified, `SyncRecord` uses no memory that is not there, and in the end, early or
-- not, a record with the content of the local one stands at its address in the local database.
pub sync_record-Has :
    (palm : Palm) (a : ℕ) (l r : PdbRecord) (s : Conduit palm.State)
    → at_addr a s.localdb.recs ≡ some l
    → kind l ≡ modified
    → Safe (Has a (content l)) (sync_record palm a r s)
unfolding sync_record load
sync_record-Has palm a l r s at_a e =
    rw (at_a, e) (modified-Safe palm a (content l) (kind r) l r s (l, at_a, refl))

-- For every answer of the Palm, of the archive and of the memory, where the local record is in the
-- database, `SyncRecord` uses no memory that is not there, if the remote record is not modified or the
-- local one not archived.
pub sync_record-Safe :
    (palm : Palm) (a : ℕ) (l r : PdbRecord) (s : Conduit palm.State)
    → at_addr a s.localdb.recs ≡ some l
    → (kind r ≢ modified) ⊎ (kind l ≢ archived)
    → Safe Any (sync_record palm a r s)
unfolding sync_record load
sync_record-Safe palm a l r s at_a apart = rw at_a (by_kind (kind l) apart)
  where
    has : Has a (content l) s
    has = (l, at_a, refl)

    by_kind :
        (kl : Kind)
        → (kind r ≢ modified) ⊎ (kl ≢ archived)
        → Safe Any (sync_kinds palm (kind r) kl a l r s)
    by_kind archived (inl other) = archived-Safe palm a (content l) (kind r) l r s other has
    by_kind archived (inr other) = absurd (other refl)
    by_kind gone _ = gone-Safe palm a (content l) (kind r) l r s has
    by_kind modified _ =
        Safe-Any (Has a (content l)) _ (modified-Safe palm a (content l) (kind r) l r s has)
    by_kind clean _ = clean-Safe palm a (content l) (kind r) l r s has
