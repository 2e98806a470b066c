-- ===== src/Generic/Frames.antt =====
-- The steps of the walk of `FastSync` over the local database: each touches the one ID of its record.
use coldsync.Base.{
  ℕ, ◌==◌, ==_refl, ◌⊎◌, true, false, Bool-cases, none, some, List, [], ◌∷◌, ◌≡◌, ◌≢◌, refl, sym,
  ◌∙◌, inl, inr, arith, if◌then◌else◌,
}
use coldsync.Pdb.{PdbRecord, is_rsrc_db, at_addr, update_at, delete_by_id}
use coldsync.Pdb.Ids.{
  content, lookup, Unique, lookup-at_addr, lookup-delete_by_id, lookup-update_id,
  lookup-update_same, at_addr-update,
}
use coldsync.Pdb.Unique.{Unique-delete_by_id, Unique-update_id, Unique-update_same}
use coldsync.Generic.{archive_record, load, change, delete_local, upload}
use coldsync.Generic.Remote.{Palm, IsLawful}
use coldsync.Generic.Monad.{Conduit, Outcome, ok, err, fault, M, ◌>>=◌, ◌>>◌, continue}
use coldsync.Generic.Records.{expunged, dirty, clear_status_flags}
use coldsync.Generic.Steps.{
  Lands, and_then, with_archive, with_palm, with_change, change-eq, archive_record-eq,
  delete_local-eq, upload-eq,
}
use coldsync.Generic.Ready.{Fine}
use coldsync.Generic.Slow.{to_archive}
use coldsync.Generic.Fast.{fast_delete, fast_answer, fast_only, fast_local}
use coldsync.Generic.Walks.{IsClean}

at_addr-delete_other :
    (b k : ℕ) (recs : List PdbRecord) (l : PdbRecord)
    → l.id ≢ k
    → at_addr b recs ≡ some l
    → at_addr b (delete_by_id k recs) ≡ some l
unfolding at_addr delete_by_id
at_addr-delete_other b k [] l other e = cc
at_addr-delete_other b k (rec ∷ recs) l other e =
    ground (arith, other, at_addr-delete_other b k recs l other)

at_addr-update_other :
    (a b : ℕ) (f : PdbRecord → PdbRecord) (recs : List PdbRecord)
    → ((r : PdbRecord) → (f r).addr ≡ r.addr)
    → b ≢ a
    → at_addr b (update_at a f recs) ≡ at_addr b recs
unfolding at_addr update_at
at_addr-update_other a b f [] same other = refl
at_addr-update_other a b f (rec ∷ recs) same other =
    ground (arith, same rec, other, at_addr-update_other a b f recs same other)

pub Lands-bind :
    {P A B : Type 0} (Q : B → Conduit P → Type 0) (m : M P A) (f : A → M P B) (s : Conduit P)
    → Lands (λ x s'. Lands Q (f x s')) (m s)
    → Lands Q ((m >>= f) s)
Lands-bind {P = P} {A = A} Q m f s first = by_case (m s) first
  where
    by_case :
        (o : Outcome A × Conduit P)
        → Lands (λ x s'. Lands Q (f x s')) o
        → Lands Q (continue o.0 f o.1)
    by_case (ok x, s') q = q
    by_case (err, s') q = absurd q
    by_case (fault, s') q = absurd q

pub Lands-map :
    {P A : Type 0} (Q R : A → Conduit P → Type 0) (o : Outcome A × Conduit P)
    → ((x : A) (s : Conduit P) → Q x s → R x s)
    → Lands Q o
    → Lands R o
Lands-map Q R (ok x, s) f q = f x s q
Lands-map Q R (err, s) f q = q
Lands-map Q R (fault, s) f q = q

module _ (palm : Palm) (lawful : IsLawful palm) (Free : ℕ → Type 0) where
  -- A step that brings an ID to agree, and the one that the record has got, which is free if it is
  -- another, and that changes neither other IDs nor records at other addresses.
  abbrev pub Frame : ℕ → ℕ → Conduit palm.State → Unit {0} → Conduit palm.State → Type 0
  Frame k a s _ s' =
      (n : ℕ) × ((n ≡ k) ⊎ Free n)
      × Fine palm lawful s'
      × Unique s'.localdb.recs
      × (lookup k s'.localdb.recs ≡ lawful.held k s'.palm)
      × (lookup n s'.localdb.recs ≡ lawful.held n s'.palm)
      × ((i : ℕ)
          → k ≢ i
          → n ≢ i
          → (lookup i s'.localdb.recs ≡ lookup i s.localdb.recs)
            × (lawful.held i s'.palm ≡ lawful.held i s.palm))
      × ((b : ℕ) (o : PdbRecord)
          → b ≢ a
          → o.id ≢ k
          → at_addr b s.localdb.recs ≡ some o
          → at_addr b s'.localdb.recs ≡ some o)

  abbrev pub Start : ℕ → PdbRecord → Conduit palm.State → Type 0
  Start a l s = Fine palm lawful s × Unique s.localdb.recs × (at_addr a s.localdb.recs ≡ some l)

  -- An ID that the Palm gives to the record in place of its own is free.
  abbrev pub Spare : PdbRecord → Conduit palm.State → Type 0
  Spare l s =
      (flags category : ℕ) (bytes : List ℕ)
      → (palm.write_record l.id flags category bytes s.palm).1 ≢ l.id
      → Free (palm.write_record l.id flags category bytes s.palm).1
        × (lookup (palm.write_record l.id flags category bytes s.palm).1 s.localdb.recs ≡ none)

  delete-Frame :
      (a : ℕ) (l : PdbRecord) (s : Conduit palm.State)
      → Start a l s
      → Lands
          (Frame l.id a s)
          (delete_local a (with_palm palm lawful (palm.delete_record l.id s.palm).1 s))
  unfolding is_rsrc_db
  delete-Frame a l s (fine, unique, at_a) =
      rw
        (delete_local-eq a (with_palm palm lawful (palm.delete_record l.id s.palm).1 s) at_a fine.0)
        (
          l.id,
          inl refl,
          fine,
          Unique-delete_by_id l.id s.localdb.recs unique,
          here,
          here,
          (λ i other _. (
            lookup-delete_by_id i l.id s.localdb.recs unique ∙ ground (arith, other),
            lawful.held-delete i l.id s.palm ∙ ground (arith, other),
          )),
          (λ b o other apart e. at_addr-delete_other b l.id s.localdb.recs o apart e),
        )
    where
      here :
          lookup l.id (delete_by_id l.id s.localdb.recs)
          ≡ lawful.held l.id (palm.delete_record l.id s.palm).1
      here =
          lookup-delete_by_id l.id l.id s.localdb.recs unique
          ∙ (rw (==_refl l.id) refl ∙ sym (lawful.held-delete l.id l.id s.palm))

  fast_delete-Frame :
      (a : ℕ) (l : PdbRecord) (s : Conduit palm.State)
      → Start a l s
      → Lands (Frame l.id a s) (fast_delete palm a l.id s)
  unfolding fast_delete fast_answer
  fast_delete-Frame a l s start = elim (lawful.answers_delete l.id s.palm) [
    | inl done ↦ rw done (delete-Frame a l s start)
    | inr (absent, _, _) ↦ rw absent (delete-Frame a l s start)
  ]

  upload-Frame :
      (a : ℕ) (l : PdbRecord) (s : Conduit palm.State)
      → Spare l s
      → Start a l s
      → Lands (Frame l.id a s) (upload palm a l.id s)
  unfolding is_rsrc_db
  upload-Frame a l s spare (fine, unique, at_a) = rw (upload-eq palm lawful a l.id s at_a) (
    n,
    free (Bool-cases (n == l.id)),
    fine,
    Unique-update_id a n s.localdb.recs l unique at_a fresh,
    seen l.id ∙ (ground (arith, left) ∙ sym (lawful.held-write l.id l.id _ _ _ s.palm)),
    seen n ∙ (ground arith ∙ sym (lawful.held-write n l.id _ _ _ s.palm)),
    (λ i other apart. (
      seen i ∙ ground (arith, other, apart),
      lawful.held-write i l.id _ _ _ s.palm ∙ ground (arith, other, apart),
    )),
    (λ b o other apart e. at_addr-update_other a b _ s.localdb.recs (λ x. refl) other ∙ e),
  )
    where
      n : ℕ
      n = (palm.write_record l.id l.flags l.category l.payload s.palm).1

      free : ((n == l.id) ≡ true) ⊎ ((n == l.id) ≡ false) → (n ≡ l.id) ⊎ Free n
      free (inl e) = inl (ground (arith, e))
      free (inr e) = inr (spare l.flags l.category l.payload (ground (arith, e))).0

      fresh : l.id ≢ n → lookup n s.localdb.recs ≡ none
      fresh other = (spare l.flags l.category l.payload (ground (arith, other))).1

      -- Only a record that the Palm does not have gets another ID.
      left : n ≢ l.id → lawful.held l.id s.palm ≡ none
      left other = ground (arith, other, lawful.keeps_id l.id l.flags l.category l.payload s.palm)

      seen :
          (i : ℕ)
          → lookup i (update_at a (λ r. record r { id = n }) s.localdb.recs) ≡ (
              if n == i
              then some (content l)
              else if l.id == i
              then none
              else lookup i s.localdb.recs)
      seen i = lookup-update_id i a n s.localdb.recs l unique at_a fresh

  -- The flags are cleared first.
  clear-Frame :
      (a k : ℕ) (l : PdbRecord) (m : M palm.State (Unit {0})) (s : Conduit palm.State)
      → Start a l s
      → (Start a (clear_status_flags l) (with_change a clear_status_flags s)
          → Lands
              (Frame k a (with_change a clear_status_flags s))
              (m (with_change a clear_status_flags s)))
      → Lands (Frame k a s) ((change a clear_status_flags >> m) s)
  unfolding is_rsrc_db clear_status_flags
  clear-Frame a k l m s (fine, unique, at_a) rest =
      and_then (Frame k a s) (change a clear_status_flags) (λ _. m)
        (change-eq a clear_status_flags s at_a)
        (Lands-map (Frame k a (with_change a clear_status_flags s)) (Frame k a s)
          (m (with_change a clear_status_flags s))
          (λ _ s' (n, free, fine', unique', here, there, same, others). (
            n,
            free,
            fine',
            unique',
            here,
            there,
            (λ i other apart. (
              (same i other apart).0
                  ∙ lookup-update_same i a clear_status_flags s.localdb.recs (λ x. refl)
                      (λ x. refl),
              (same i other apart).1,
            )),
            (λ b o other apart e.
                others b o other apart (
                  at_addr-update_other a b clear_status_flags s.localdb.recs (λ x. refl) other
                  ∙ e)),
          ))
          (rest (
            fine,
            Unique-update_same a clear_status_flags s.localdb.recs (λ x. refl) (λ x. refl) unique,
            at_addr-update a clear_status_flags s.localdb.recs l (λ x. refl) at_a,
          )))

  pub fast_local-Frame :
      (a : ℕ) (l : PdbRecord) (s : Conduit palm.State)
      → Spare l s
      → Start a l s
      → (IsClean l → lawful.held l.id s.palm ≡ some (content l))
      → Lands (Frame l.id a s) (fast_local palm a s)
  unfolding fast_local fast_only load is_rsrc_db clear_status_flags
  fast_local-Frame a l s spare (fine, unique, at_a) clean =
      rw at_a (elim (Bool-cases (to_archive l)) [
        | inl e ↦ rw e (
            clear-Frame a l.id l (archive_record (clear_status_flags l) >> fast_delete palm a l.id)
              s start
              (λ cleared.
                and_then (Frame l.id a (with_change a clear_status_flags s))
                  (archive_record (clear_status_flags l)) (λ _. fast_delete palm a l.id)
                  {s = with_change a clear_status_flags s}
                  (archive_record-eq (clear_status_flags l) (with_change a clear_status_flags s))
                  (fast_delete-Frame a (clear_status_flags l)
                    (with_archive (clear_status_flags l) (with_change a clear_status_flags s))
                    cleared)))
        | inr e ↦ rw e (elim (Bool-cases (expunged l)) [
          | inl e' ↦ rw e' (fast_delete-Frame a l s start)
          | inr e' ↦ rw e' (elim (Bool-cases (dirty l)) [
            | inl e'' ↦ rw e'' (
                clear-Frame a l.id l (upload palm a l.id) s start (
                  upload-Frame a (clear_status_flags l) (with_change a clear_status_flags s)
                    (λ flags category bytes other. (
                      (spare flags category bytes other).0,
                      lookup-update_same _ a clear_status_flags s.localdb.recs (λ x. refl)
                            (λ x. refl)
                          ∙ (spare flags category bytes other).1,
                    ))))
            | inr e'' ↦ rw e'' (
              l.id,
              inl refl,
              fine,
              unique,
              kept (clean (e, e', e'')),
              kept (clean (e, e', e'')),
              (λ i other _. (refl, refl)),
              (λ b o other apart e0. e0),
            )
          ])
        ])
      ])
    where
      start : Start a l s
      start = (fine, unique, at_a)

      kept :
          lawful.held l.id s.palm ≡ some (content l)
          → lookup l.id s.localdb.recs ≡ lawful.held l.id s.palm
      kept living = lookup-at_addr a s.localdb.recs l unique at_a ∙ sym living
