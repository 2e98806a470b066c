-- ===== src/Generic/Converges.antt =====
-- What `SyncRecord` brings about.
use coldsync.Base.{
  ℕ, true, Option, none, some, ◌≡◌, refl, sym, ap, ◌∙◌, Bool-cases, inl, inr, bit_and,
}
use coldsync.Pdb.{is_rsrc_db, PdbRecord, pdb_rec_private}
use coldsync.Pdb.Ids.{Content, content}
use coldsync.Generic.{
  load, archive_record, change, delete_local, insert_local, copy_remote, delete_remote, upload,
  sync_archived, sync_gone, sync_modified, sync_clean, sync_kinds, sync_record,
}
use coldsync.Generic.Remote.{Palm, IsLawful}
use coldsync.Generic.Monad.{Conduit, ◌>>=◌, ◌>>◌, M, bind_ok}
use coldsync.Generic.Records.{
  Kind, archived, gone, modified, clean, kind, clear_status_flags, is_equal, compare_rec, same_data,
}
use coldsync.Generic.Order.{compare_rec→eq, is_equal→eq}
use coldsync.Generic.Steps.{
  Lands, and_then, with_archive, with_palm, with_change, change-eq, delete_remote-eq,
  archive_record-eq,
}
use coldsync.Generic.Agree.{Agree-same}
use coldsync.Generic.Ready.{
  Ready, Synced, Ready-delete_remote, Ready-clear, delete_local-Synced, delete_both-Synced,
  delete_both'-Synced, upload-Synced, append-Synced, replace-Synced, insert-Synced,
}

-- What lives on the Palm of a record that it sends: nothing once the record was deleted there.
abbrev pub living : Kind → PdbRecord → Option Content
living archived r = none
living gone r = none
living modified r = some (content r)
living clean r = some (content r)

-- The pairs of records for which the sync is right: those that did not change are the same, and the
-- case of the record that is changed on the Palm and archived here is left out.
abbrev pub Sound : Kind → Kind → PdbRecord → PdbRecord → Type 0
Sound modified archived l r = ⊥
Sound clean clean l r = content l ≡ content r
Sound _ _ l r = Unit

module _ (palm : Palm) (lawful : IsLawful palm) (a : ℕ) (r : PdbRecord) where
  -- The archive does not bear on what follows.
  after_archive :
      (rec : PdbRecord) (m : M palm.State (Unit {0})) (s : Conduit palm.State)
      → Lands (Synced palm lawful) (m (with_archive rec s))
      → Lands (Synced palm lawful) ((archive_record rec >> m) s)
  after_archive rec m s =
      and_then (Synced palm lawful) (archive_record rec) (λ _. m) (archive_record-eq rec s)

  after_clear :
      (l : PdbRecord) (m : M palm.State (Unit {0})) (s : Conduit palm.State)
      → Ready palm lawful r.id a l s
      → Lands (Synced palm lawful) (m (with_change a clear_status_flags s))
      → Lands (Synced palm lawful) ((change a clear_status_flags >> m) s)
  after_clear l m s ready =
      and_then (Synced palm lawful) (change a clear_status_flags) (λ _. m)
        (change-eq a clear_status_flags s ready.1)

  clear_upload-Synced :
      (l : PdbRecord) (s : Conduit palm.State)
      → Ready palm lawful r.id a l s
      → Lands (Synced palm lawful) ((change a clear_status_flags >> upload palm a l.id) s)
  unfolding is_rsrc_db
  clear_upload-Synced l s ready = after_clear l (upload palm a l.id) s ready (
      rw ready.2 (
        upload-Synced palm lawful r.id a (clear_status_flags l) (with_change a clear_status_flags s)
          (Ready-clear palm lawful r.id a l s ready)))

  clear-Synced :
      (l : PdbRecord) (s : Conduit palm.State)
      → Ready palm lawful r.id a l s
      → lawful.held r.id s.palm ≡ some (content l)
      → Lands (Synced palm lawful) (change a clear_status_flags s)
  unfolding is_rsrc_db clear_status_flags
  clear-Synced l s ready here =
      rw (change-eq a clear_status_flags s ready.1)
        (ready.0, Agree-same _ r.id _ cleared.3 a (clear_status_flags l) cleared.1 ready.2 here)
    where
      cleared : Ready palm lawful r.id a (clear_status_flags l) (with_change a clear_status_flags s)
      cleared = Ready-clear palm lawful r.id a l s ready

  archived-Synced :
      (k : Kind) (l : PdbRecord) (s : Conduit palm.State)
      → Ready palm lawful r.id a l s
      → lawful.held r.id s.palm ≡ none
      → Lands (Synced palm lawful) (sync_archived palm k a l r s)
  unfolding sync_archived
  archived-Synced archived l s ready none_here = elim (Bool-cases (same_data l r)) [
    | inl same ↦
        rw same (
          after_archive l both s (delete_both-Synced palm lawful r.id a l (with_archive l s) ready))
    | inr differ ↦ rw differ (
        and_then (Synced palm lawful) (archive_record l >> archive_record r) (λ _. both) {s = s}
          (bind_ok (archive_record l) (λ _. archive_record r) {s = s} (archive_record-eq l s)
            ∙ archive_record-eq r (with_archive l s))
          (delete_both-Synced palm lawful r.id a l (with_archive r (with_archive l s)) ready))
  ]
    where
      both : M palm.State (Unit {0})
      both = delete_remote palm r.id >> delete_local a
  archived-Synced gone l s ready none_here =
      after_archive r (delete_remote palm r.id >> delete_local a) s
        (delete_both-Synced palm lawful r.id a l (with_archive r s) ready)
  archived-Synced modified l s ready none_here =
      after_archive r (change a clear_status_flags >> upload palm a l.id) s
        (clear_upload-Synced l (with_archive r s) ready)
  archived-Synced clean l s ready none_here =
      after_archive r (delete_local a) s
        (delete_local-Synced palm lawful r.id a l (with_archive r s) ready none_here)

  gone-Synced :
      (k : Kind) (l : PdbRecord) (s : Conduit palm.State)
      → Ready palm lawful r.id a l s
      → lawful.held r.id s.palm ≡ none
      → Lands (Synced palm lawful) (sync_gone palm k a l r s)
  unfolding sync_gone is_rsrc_db
  gone-Synced archived l s ready none_here =
      after_clear l (archive_record l >> delete_local a) s ready (
        after_archive l (delete_local a) (with_change a clear_status_flags s) (
          delete_local-Synced palm lawful r.id a (clear_status_flags l)
            (with_archive l (with_change a clear_status_flags s))
            (Ready-clear palm lawful r.id a l s ready) none_here))
  gone-Synced gone l s ready none_here = delete_local-Synced palm lawful r.id a l s ready none_here
  gone-Synced modified l s ready none_here =
      and_then (Synced palm lawful) (delete_remote palm r.id)
        (λ _. change a clear_status_flags >> upload palm a l.id)
        (delete_remote-eq palm lawful r.id s)
        (clear_upload-Synced l (with_palm palm lawful (palm.delete_record r.id s.palm).1 s)
          (Ready-delete_remote palm lawful r.id a l s ready))
  gone-Synced clean l s ready none_here = delete_local-Synced palm lawful r.id a l s ready none_here

  modified-Synced :
      (k : Kind) (l : PdbRecord) (s : Conduit palm.State)
      → Sound modified k l r
      → Ready palm lawful r.id a l s
      → lawful.held r.id s.palm ≡ some (content r)
      → Lands (Synced palm lawful) (sync_modified palm k a l r s)
  unfolding sync_modified clear_status_flags is_rsrc_db
  modified-Synced archived l s sound ready here = absurd sound
  modified-Synced gone l s sound ready here =
      append-Synced palm lawful r.id a r.flags clear_status_flags l r s ready refl (λ x. refl)
        (λ x. refl) here
  modified-Synced modified l s sound ready here = elim (Bool-cases (is_equal (compare_rec l r))) [
    | inl same ↦ rw same (same_content same)
    | inr differ ↦ rw differ (
        after_clear l
          (upload palm a 0
            >> (copy_remote (bit_and r.flags pdb_rec_private) r >>= λ new. insert_local a new))
          s ready
          (insert-Synced palm lawful r.id a (bit_and r.flags pdb_rec_private) (clear_status_flags l)
            r (with_change a clear_status_flags s) (Ready-clear palm lawful r.id a l s ready) refl
            here))
  ]
    where
      same_content :
          is_equal (compare_rec l r) ≡ true
          → Lands (Synced palm lawful) (change a clear_status_flags s)
      same_content same =
          clear-Synced l s ready
            (here ∙ ap some (sym (compare_rec→eq l r (is_equal→eq (compare_rec l r) same))))
  modified-Synced clean l s sound ready here =
      replace-Synced palm lawful r.id a r.flags clear_status_flags l r s ready refl (λ x. refl)
        (λ x. refl) here

  clean-Synced :
      (k : Kind) (l : PdbRecord) (s : Conduit palm.State)
      → Sound clean k l r
      → Ready palm lawful r.id a l s
      → lawful.held r.id s.palm ≡ some (content r)
      → Lands (Synced palm lawful) (sync_clean palm k a l r s)
  unfolding sync_clean is_rsrc_db
  clean-Synced archived l s sound ready here =
      after_clear l (archive_record l >> (delete_local a >> delete_remote palm r.id)) s ready (
        after_archive l (delete_local a >> delete_remote palm r.id)
          (with_change a clear_status_flags s)
          (delete_both'-Synced palm lawful r.id a (clear_status_flags l)
            (with_archive l (with_change a clear_status_flags s))
            (Ready-clear palm lawful r.id a l s ready)))
  clean-Synced gone l s sound ready here = delete_both'-Synced palm lawful r.id a l s ready
  clean-Synced modified l s sound ready here = clear_upload-Synced l s ready
  clean-Synced clean l s sound (fine, at_a, l_id, agree) here =
      (fine, Agree-same _ r.id _ agree a l at_a l_id (here ∙ ap some (sym sound)))

  -- If the Palm keeps to what is asked of it and answers every call, memory is found, the IDs of the
  -- local database are unique, it is no resource database, its record at an address has the remote
  -- record's ID, all its other records have the contents that live on the Palm, the remote record is
  -- as the Palm holds it (nothing lives there if it was deleted), two unchanged records have equal
  -- contents, and the remote record is not changed while the local one is archived, then `SyncRecord`
  -- succeeds, and leaves a local database of unique IDs that holds just what lives on the Palm.
  pub sync_record-Synced :
      (l : PdbRecord) (s : Conduit palm.State)
      → Sound (kind r) (kind l) l r
      → Ready palm lawful r.id a l s
      → lawful.held r.id s.palm ≡ living (kind r) r
      → Lands (Synced palm lawful) (sync_record palm a r s)
  unfolding sync_record load sync_kinds
  sync_record-Synced l s sound ready here = rw ready.1 (by_kind (kind r) (kind l) sound here)
    where
      by_kind :
          (kr kl : Kind)
          → Sound kr kl l r
          → lawful.held r.id s.palm ≡ living kr r
          → Lands (Synced palm lawful) (sync_kinds palm kr kl a l r s)
      by_kind archived kl sound' here' = archived-Synced kl l s ready here'
      by_kind gone kl sound' here' = gone-Synced kl l s ready here'
      by_kind modified kl sound' here' = modified-Synced kl l s sound' ready here'
      by_kind clean kl sound' here' = clean-Synced kl l s sound' ready here'
