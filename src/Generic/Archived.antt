-- ===== src/Generic/Archived.antt =====
-- `SyncRecord` and the archive, whatever the Palm and the memory answer.
use mathlib.Core.List.{Memᴰ}
use mathlib.Core.List.Memᴰ.{head, append_left, append_right}
use coldsync.Base.{
  ℕ, true, some, List, [], ◌∷◌, Bool-cases, Option-cases, ◌≡◌, refl, sym, ap, ◌∙◌, inl, inr, arith,
}
use coldsync.Pdb.{PdbRecord, at_addr}
use coldsync.Pdb.Memory.{new_record}
use coldsync.Generic.{
  archive_record, load, change, delete_local, append_local, copy_remote, delete_remote, upload,
  is_noerr, sync_archived, sync_gone, sync_modified, sync_clean, sync_kinds, sync_record, written,
  rest_of,
}
use coldsync.Generic.Remote.{Palm}
use coldsync.Generic.Monad.{Conduit, Outcome, ok, err, fault, M, continue, ◌>>=◌, ◌>>◌}
use coldsync.Generic.Records.{
  Kind, archived, gone, modified, clean, kind, clear_status_flags, same_data,
}
use coldsync.Generic.Steps.{change-eq, with_change}
use coldsync.Generic.Order.{compare_bytes→eq, is_equal→eq}

-- The archive has these data.
abbrev pub Archived : {P : Type 0} → List ℕ → Conduit P → Type 0
Archived bytes s = Memᴰ bytes s.archive

-- What is archived stays archived, however the function ends.
abbrev pub Keeps : {P A : Type 0} → List ℕ → M P A → Type 0
Keeps {P} bytes m = (s : Conduit P) → Archived bytes s → Archived bytes (m s).1

module _ {P : Type 0} (bytes : List ℕ) where
  Keeps-bind :
      {A B : Type 0} (m : M P A) (f : A → M P B)
      → Keeps bytes m
      → ((a : A) → Keeps bytes (f a))
      → Keeps bytes (m >>= f)
  Keeps-bind {A = A} m f first rest s h = by_case (m s) (first s h)
    where
      by_case :
          (o : Outcome A × Conduit P) → Archived bytes o.1 → Archived bytes (continue o.0 f o.1).1
      by_case (ok a, s') h' = rest a s' h'
      by_case (err, s') h' = h'
      by_case (fault, s') h' = h'

  archive_record-Keeps : (rec : PdbRecord) → Keeps {P = P} bytes (archive_record rec)
  unfolding archive_record
  archive_record-Keeps rec s h = elim (Bool-cases (written s.writes)) [
    | inl done ↦ rw done (append_left (rec.payload ∷ []) h)
    | inr failed ↦ rw failed h
  ]

  change-Keeps : (a : ℕ) (f : PdbRecord → PdbRecord) → Keeps {P = P} bytes (change a f)
  unfolding change load
  change-Keeps a f s h = elim (Option-cases (at_addr a s.localdb.recs)) [
    | inl e ↦ rw e h
    | inr (l, e) ↦ rw e h
  ]

  delete_local-Keeps : (a : ℕ) → Keeps {P = P} bytes (delete_local a)
  unfolding delete_local load
  delete_local-Keeps a s h = elim (Option-cases (at_addr a s.localdb.recs)) [
    | inl e ↦ rw e h
    | inr (l, e) ↦ rw e h
  ]

  copy_remote-Keeps : (flags : ℕ) (r : PdbRecord) → Keeps {P = P} bytes (copy_remote flags r)
  unfolding copy_remote
  copy_remote-Keeps flags r s h =
      elim (Option-cases (new_record flags r.category r.id r.payload s.memory).0) [
        | inl e ↦ rw e h
        | inr (new, e) ↦ rw e h
      ]

  append_local-Keeps : (new : PdbRecord) → Keeps {P = P} bytes (append_local new)
  unfolding append_local
  append_local-Keeps new s h = h

  -- A record that is archived, while the archive can be written, and the rest.
  archive-Archived :
      (rec : PdbRecord) (m : M P (Unit {0})) (s : Conduit P)
      → rec.payload ≡ bytes
      → s.writes ≡ []
      → Keeps bytes m
      → Archived bytes ((archive_record rec >> m) s).1
  unfolding archive_record
  archive-Archived rec m s same writes rest =
      rest _ (rw writes (append_right s.archive (head (sym same))))

  -- The same, after the flags of the local record were cleared.
  clear_archive-Archived :
      (a : ℕ) (l : PdbRecord) (m : M P (Unit {0})) (s : Conduit P)
      → at_addr a s.localdb.recs ≡ some l
      → l.payload ≡ bytes
      → s.writes ≡ []
      → Keeps bytes m
      → Archived bytes ((change a clear_status_flags >> (archive_record l >> m)) s).1
  clear_archive-Archived a l m s at_a same writes rest =
      rw (change-eq a clear_status_flags s at_a)
        (archive-Archived l m (with_change a clear_status_flags s) same writes rest)

same_data→≡ : (l r : PdbRecord) → same_data l r ≡ true → l.payload ≡ r.payload
unfolding same_data
same_data→≡ l r e = compare_bytes→eq l.payload r.payload (is_equal→eq _ (ground (arith, e)))

module _ (palm : Palm) (bytes : List ℕ) (a : ℕ) where
  delete_remote-Keeps : (id : ℕ) → Keeps bytes (delete_remote palm id)
  unfolding delete_remote
  delete_remote-Keeps id s h = elim (Bool-cases (is_noerr palm (palm.delete_record id s.palm).0)) [
    | inl done ↦ rw done h
    | inr failed ↦ rw failed (elim (Bool-cases (palm.is_online (palm.delete_record id s.palm).1)) [
      | inl on ↦ rw on h
      | inr off ↦ rw off h
    ])
  ]

  upload-Keeps : (id : ℕ) → Keeps bytes (upload palm a id)
  unfolding upload load
  upload-Keeps id s h = elim (Option-cases (at_addr a s.localdb.recs)) [
    | inl e ↦ rw e h
    | inr (l, e) ↦
        rw e
          (elim (Bool-cases
            (is_noerr palm (palm.write_record id l.flags l.category l.payload s.palm).0)) [
              | inl done ↦ rw done (change-Keeps bytes a _ _ h)
              | inr failed ↦ rw failed h
            ])
  ]

  both-Keeps : (id : ℕ) → Keeps bytes (delete_remote palm id >> delete_local a)
  both-Keeps id =
      Keeps-bind bytes (delete_remote palm id) (λ _. delete_local a) (delete_remote-Keeps id)
        (λ _. delete_local-Keeps bytes a)

  clear_upload-Keeps : (id : ℕ) → Keeps bytes (change a clear_status_flags >> upload palm a id)
  clear_upload-Keeps id =
      Keeps-bind bytes (change a clear_status_flags) (λ _. upload palm a id)
        (change-Keeps bytes a clear_status_flags) (λ _. upload-Keeps id)

  module _ (l r : PdbRecord) (s : Conduit palm.State) (writes : s.writes ≡ []) where
    remote-Archived :
        (kl : Kind) → r.payload ≡ bytes → Archived bytes (sync_archived palm kl a l r s).1
    unfolding sync_archived archive_record
    remote-Archived archived same = elim (Bool-cases (same_data l r)) [
      | inl equal ↦ rw equal (
          archive-Archived bytes l (delete_remote palm r.id >> delete_local a) s
            (same_data→≡ l r equal ∙ same) writes (both-Keeps r.id))
      | inr differ ↦ rw differ (
          archive-Archived bytes r (delete_remote palm r.id >> delete_local a)
            (archive_record l s).1 same (ap rest_of writes) (both-Keeps r.id))
    ]
    remote-Archived gone same =
        archive-Archived bytes r (delete_remote palm r.id >> delete_local a) s same writes
          (both-Keeps r.id)
    remote-Archived modified same =
        archive-Archived bytes r (change a clear_status_flags >> upload palm a l.id) s same writes
          (clear_upload-Keeps l.id)
    remote-Archived clean same =
        archive-Archived bytes r (delete_local a) s same writes (delete_local-Keeps bytes a)

    local-Archived :
        (kr : Kind)
        → at_addr a s.localdb.recs ≡ some l
        → l.payload ≡ bytes
        → Archived bytes (sync_kinds palm kr archived a l r s).1
    unfolding sync_kinds sync_archived sync_gone sync_modified sync_clean archive_record
    local-Archived archived at_a same = elim (Bool-cases (same_data l r)) [
      | inl equal ↦ rw equal (
          archive-Archived bytes l (delete_remote palm r.id >> delete_local a) s same writes
            (both-Keeps r.id))
      | inr differ ↦ rw differ (
          archive-Archived bytes l (archive_record r >> (delete_remote palm r.id >> delete_local a))
            s same writes
            (Keeps-bind bytes (archive_record r) (λ _. delete_remote palm r.id >> delete_local a)
              (archive_record-Keeps bytes r) (λ _. both-Keeps r.id)))
    ]
    local-Archived gone at_a same =
        clear_archive-Archived bytes a l (delete_local a) s at_a same writes
          (delete_local-Keeps bytes a)
    local-Archived modified at_a same =
        clear_archive-Archived bytes a l (delete_local a >> copy) s at_a same writes (
          Keeps-bind bytes (delete_local a) (λ _. copy) (delete_local-Keeps bytes a)
            λ _.
              Keeps-bind bytes (copy_remote r.flags r)
                (λ new. change a clear_status_flags >> append_local new)
                (copy_remote-Keeps bytes r.flags r)
                λ new.
                  Keeps-bind bytes (change a clear_status_flags) (λ _. append_local new)
                    (change-Keeps bytes a clear_status_flags) (λ _. append_local-Keeps bytes new))
      where
        copy : M palm.State (Unit {0})
        copy = copy_remote r.flags r >>= λ new. change a clear_status_flags >> append_local new
    local-Archived clean at_a same =
        clear_archive-Archived bytes a l (delete_local a >> delete_remote palm r.id) s at_a same
          writes
          (Keeps-bind bytes (delete_local a) (λ _. delete_remote palm r.id)
            (delete_local-Keeps bytes a) (λ _. delete_remote-Keeps r.id))

-- While the archive can be written, and the local record is in the database, whatever the Palm and the
-- memory answer and however `SyncRecord` ends: the data of the remote record stand in the archive if
-- that record is to be archived, and those of the local one if that one is.
pub sync_record-Archived :
    (palm : Palm) (a : ℕ) (l r : PdbRecord) (s : Conduit palm.State)
    → s.writes ≡ []
    → at_addr a s.localdb.recs ≡ some l
    → (kind r ≡ archived → Archived r.payload (sync_record palm a r s).1)
      × (kind l ≡ archived → Archived l.payload (sync_record palm a r s).1)
unfolding sync_record load sync_kinds
sync_record-Archived palm a l r s writes at_a = rw at_a (
  (λ e. rw e (remote-Archived palm r.payload a l r s writes (kind l) refl)),
  (λ e. rw e (local-Archived palm l.payload a l r s writes (kind r) at_a refl)),
)
