-- ===== src/Generic/Walks.antt =====
-- What the walks of `FastSync` and `SlowSync` over the local database bring about.
use coldsync.Base.{
  ℕ, ==_refl, ◌↔◌, true, false, Bool-cases, none, some, List, [], ◌∷◌, All, ◌≡◌, refl, ◌∙◌, inl,
  inr, arith,
}
use coldsync.Pdb.{PdbRecord, is_rsrc_db, at_addr}
use coldsync.Pdb.Ids.{content, lookup, lookup-at_addr}
use coldsync.Generic.{archive_record, load, change, delete_local, upload}
use coldsync.Generic.Remote.{Palm, IsLawful}
use coldsync.Generic.Monad.{Conduit, ok, M, ◌>>◌, bind_ok}
use coldsync.Generic.Records.{expunged, dirty, clear_status_flags}
use coldsync.Generic.Steps.{
  Lands, and_then, with_archive, with_change, with_palm, change-eq, archive_record-eq,
}
use coldsync.Generic.Agree.{Agree-same}
use coldsync.Generic.Ready.{
  Ready, Synced, Ready-clear, Ready-delete_remote, gone_remote, delete_local-Synced, upload-Synced,
}
use coldsync.Generic.Slow.{for_each, to_archive, slow_only}
use coldsync.Generic.Fast.{fast_delete, fast_answer, fast_only, fast_local}

-- A record without any mark.
abbrev pub IsClean : PdbRecord → Type 0
IsClean l = (to_archive l ≡ false) × (expunged l ≡ false) × (dirty l ≡ false)

module _ (palm : Palm) (lawful : IsLawful palm) (k a : ℕ) where
  clear_archive :
      (l : PdbRecord) (m : M palm.State (Unit {0})) (s : Conduit palm.State)
      → Ready palm lawful k a l s
      → Lands
          (Synced palm lawful)
          (m (with_archive (clear_status_flags l) (with_change a clear_status_flags s)))
      → Lands
          (Synced palm lawful)
          ((change a clear_status_flags >> (archive_record (clear_status_flags l) >> m)) s)
  clear_archive l m s ready rest =
      and_then (Synced palm lawful) (change a clear_status_flags)
        (λ _. archive_record (clear_status_flags l) >> m) (change-eq a clear_status_flags s ready.1)
        (and_then (Synced palm lawful) (archive_record (clear_status_flags l)) (λ _. m)
          (archive_record-eq (clear_status_flags l) (with_change a clear_status_flags s)) rest)

  clear_upload :
      (l : PdbRecord) (s : Conduit palm.State)
      → Ready palm lawful k a l s
      → Lands (Synced palm lawful) ((change a clear_status_flags >> upload palm a l.id) s)
  unfolding is_rsrc_db
  clear_upload l s ready =
      and_then (Synced palm lawful) (change a clear_status_flags) (λ _. upload palm a l.id)
        (change-eq a clear_status_flags s ready.1)
        (rw ready.2 (
          upload-Synced palm lawful k a (clear_status_flags l) (with_change a clear_status_flags s)
            (Ready-clear palm lawful k a l s ready)))

  fast_delete-Synced :
      (l : PdbRecord) (s : Conduit palm.State)
      → Ready palm lawful k a l s
      → Lands (Synced palm lawful) (fast_delete palm a k s)
  unfolding fast_delete fast_answer
  fast_delete-Synced l s ready = elim (lawful.answers_delete k s.palm) [
    | inl done ↦ rw done deleted
    | inr (absent, _, _) ↦ rw absent deleted
  ]
    where
      deleted :
          Lands
            (Synced palm lawful)
            (delete_local a (with_palm palm lawful (palm.delete_record k s.palm).1 s))
      deleted =
          delete_local-Synced palm lawful k a l _ (Ready-delete_remote palm lawful k a l s ready)
            (gone_remote palm lawful k s.palm)

  -- If the Palm takes every record that it is sent and else keeps to the laws of `IsLawful`, by
  -- which it may have no record to delete and may give a record that it does not have another ID,
  -- memory is found, the IDs of the local database are unique, it is no resource database, and its
  -- other records have the contents that live on the Palm, as has the one at the address if it has
  -- no mark, then the look of `FastSync` at that record succeeds, and leaves a local database of
  -- unique IDs that holds just what lives on the Palm.
  pub fast_local-Synced :
      (l : PdbRecord) (s : Conduit palm.State)
      → Ready palm lawful k a l s
      → (IsClean l → lawful.held k s.palm ≡ some (content l))
      → Lands (Synced palm lawful) (fast_local palm a s)
  unfolding fast_local fast_only load is_rsrc_db clear_status_flags
  fast_local-Synced l s ready clean = rw ready.1 (elim (Bool-cases (to_archive l)) [
    | inl e ↦
        rw (e, ready.2)
          (clear_archive l (fast_delete palm a k) s ready (
            fast_delete-Synced (clear_status_flags l)
              (with_archive (clear_status_flags l) (with_change a clear_status_flags s))
              (Ready-clear palm lawful k a l s ready)))
    | inr e ↦ rw e (elim (Bool-cases (expunged l)) [
      | inl e' ↦ rw (e', ready.2) (fast_delete-Synced l s ready)
      | inr e' ↦ rw e' (elim (Bool-cases (dirty l)) [
        | inl e'' ↦ rw e'' (clear_upload l s ready)
        | inr e'' ↦
            rw e'' (ready.0, Agree-same _ k _ ready.3 a l ready.1 ready.2 (clean (e, e', e'')))
      ])
    ])
  ])

  slow_only-Synced :
      (l : PdbRecord) (s : Conduit palm.State)
      → Ready palm lawful k a l s
      → lawful.held k s.palm ≡ none
      → to_archive l ≡ false
      → Lands (Synced palm lawful) (slow_only palm a l s)
  unfolding slow_only is_rsrc_db
  slow_only-Synced l s ready none_here e = rw e (elim (Bool-cases (expunged l)) [
    | inl e' ↦ rw e' (delete_local-Synced palm lawful k a l s ready none_here)
    | inr e' ↦ rw e' (elim (Bool-cases (dirty l)) [
      | inl e'' ↦ rw e'' (clear_upload l s ready)
      | inr e'' ↦ rw e'' (
          and_then (Synced palm lawful) (archive_record l) (λ _. delete_local a) {s = s}
            (archive_record-eq l s)
            (delete_local-Synced palm lawful k a l (with_archive l s) ready none_here))
    ])
  ])

  slow_only-stays :
      (l : PdbRecord) (s : Conduit palm.State)
      → Ready palm lawful k a l s
      → lawful.held k s.palm ≡ none
      → to_archive l ≡ true
      → Lands (Synced palm lawful) (slow_only palm a l s)
      → ⊥
  unfolding slow_only clear_status_flags is_rsrc_db
  slow_only-stays l s ready none_here e lands = ground (arith, here, there, none_here)
    where
      s' : Conduit palm.State
      s' = with_archive (clear_status_flags l) (with_change a clear_status_flags s)

      cleared : Ready palm lawful k a (clear_status_flags l) (with_change a clear_status_flags s)
      cleared = Ready-clear palm lawful k a l s ready

      ends : slow_only palm a l s ≡ (ok tt, s')
      ends = rw e (
          bind_ok (change a clear_status_flags) (λ _. archive_record (clear_status_flags l)) {s = s}
            (change-eq a clear_status_flags s ready.1))

      synced : Synced palm lawful tt s'
      synced = rw ends at lands

      here : lookup k s'.localdb.recs ≡ some (content l)
      here =
          rw⁻¹ ready.2
            (lookup-at_addr a s'.localdb.recs (clear_status_flags l) cleared.3.0 cleared.1)

      there : lookup k s'.localdb.recs ≡ lawful.held k s.palm
      there = synced.1.1 k

  -- If the Palm takes every record that it is sent and else keeps to the laws of `IsLawful`, memory
  -- is found, the IDs of the local database are unique, it is no resource database, its other
  -- records have the contents that live on the Palm, and nothing lives there under the ID of the
  -- record at the address, then the look of `SlowSync` at that record, which was not downloaded,
  -- succeeds and leaves a local database of unique IDs that holds just what lives on the Palm
  -- exactly if the record was not deleted, or was to leave no trace: one that was deleted and is
  -- archived stays in the local database.
  pub slow_only_lem :
      (l : PdbRecord) (s : Conduit palm.State)
      → Ready palm lawful k a l s
      → lawful.held k s.palm ≡ none
      → Lands (Synced palm lawful) (slow_only palm a l s) ↔ (to_archive l ≡ false)
  slow_only_lem l s ready none_here = (
    λ lands. elim (Bool-cases (to_archive l)) [
      | inl e ↦ absurd (slow_only-stays l s ready none_here e lands)
      | inr e ↦ e
    ],
    slow_only-Synced l s ready none_here,
  )

-- A step that finds a clean record at every address leaves things as they are.
for_each_same :
    {P : Type 0} (f : ℕ → M P (Unit {0})) (s : Conduit P) (addrs : List ℕ)
    → All (λ a. f a s ≡ (ok tt, s)) addrs
    → for_each addrs f s ≡ (ok tt, s)
unfolding for_each
for_each_same f s [] same = refl
for_each_same f s (a ∷ addrs) (here, rest) =
    bind_ok (f a) (λ _. for_each addrs f) {s = s} here ∙ for_each_same f s addrs rest

fast_local_clean :
    (palm : Palm) (a : ℕ) (l : PdbRecord) (s : Conduit palm.State)
    → at_addr a s.localdb.recs ≡ some l
    → IsClean l
    → fast_local palm a s ≡ (ok tt, s)
unfolding fast_local fast_only load
fast_local_clean palm a l s at_a (kept, there, same) = rw (at_a, kept, there, same)

-- What stands at the address of a record of the list is a record of the list.
at_addr-All :
    (P : PdbRecord → Type 0) (rec : PdbRecord) (recs : List PdbRecord)
    → P rec
    → All P recs
    → (l : PdbRecord) × (at_addr rec.addr (rec ∷ recs) ≡ some l) × P l
unfolding at_addr
at_addr-All P rec recs p ps = (rec, rw (==_refl rec.addr), p)
