-- ===== src/Generic/Ready.antt =====
-- The ways in which the branches of `SyncRecord` end, from a state in which a local record and the
-- Palm may disagree, into one in which they agree.
use coldsync.Base.{ℕ, ==_refl, false, none, some, [], ◌≡◌, ◌≢◌, refl, sym, ap, ◌∙◌, arith, length}
use coldsync.Pdb.{PdbRecord, is_rsrc_db, at_addr}
use coldsync.Pdb.Ids.{content, at_addr-update, at_addr-insert_after, lookup-update_same}
use coldsync.Pdb.Unique.{Unique-update_same}
use coldsync.Generic.{delete_local, append_local, insert_local, copy_remote, delete_remote, upload}
use coldsync.Generic.Remote.{Palm, IsLawful}
use coldsync.Generic.Monad.{Conduit, ◌>>=◌, ◌>>◌}
use coldsync.Generic.Records.{clear_status_flags}
use coldsync.Generic.Steps.{
  Lands, and_then, malloc_for-found, with_change, with_palm, with_upload, without, with_next,
  after_copy, copy_of, delete_local-eq, append_local-eq, insert_local-eq, copy_remote-eq,
  delete_remote-eq, upload-eq,
}
use coldsync.Generic.Agree.{
  Agree, AgreeBut, Agree-delete, Agree-replace, Agree-append, Agree-move, Agree-insert,
}

module _ (palm : Palm) (lawful : IsLawful palm) where
  -- The database is no resource database and memory is found.
  abbrev pub Fine : Conduit palm.State → Type 0
  Fine s = (is_rsrc_db s.localdb ≡ false) × (s.memory.allocs ≡ [])

  -- The local record of an ID stands at an address, and all the others are in sync.
  abbrev pub Ready : ℕ → ℕ → PdbRecord → Conduit palm.State → Type 0
  Ready k a l s =
      Fine s
      × (at_addr a s.localdb.recs ≡ some l)
      × (l.id ≡ k)
      × AgreeBut k (λ i. lawful.held i s.palm) s.localdb.recs

  abbrev pub Synced : Unit {0} → Conduit palm.State → Type 0
  Synced _ s = Fine s × Agree (λ i. lawful.held i s.palm) s.localdb.recs

  pub Ready-clear :
      (k a : ℕ) (l : PdbRecord) (s : Conduit palm.State)
      → Ready k a l s
      → Ready k a (clear_status_flags l) (with_change a clear_status_flags s)
  unfolding is_rsrc_db clear_status_flags
  Ready-clear k a l s (fine, at_a, l_id, (unique, agree)) = (
    fine,
    at_addr-update a clear_status_flags _ l (λ r. refl) at_a,
    l_id,
    (
      Unique-update_same a clear_status_flags _ (λ r. refl) (λ r. refl) unique,
      λ i other.
          lookup-update_same i a clear_status_flags _ (λ r. refl) (λ r. refl) ∙ agree i other,
    ),
  )

  pub Ready-delete_remote :
      (k a : ℕ) (l : PdbRecord) (s : Conduit palm.State)
      → Ready k a l s
      → Ready k a l (with_palm palm lawful (palm.delete_record k s.palm).1 s)
  Ready-delete_remote k a l s (fine, at_a, l_id, (unique, agree)) = (
    fine,
    at_a,
    l_id,
    (unique, λ i other. agree i other ∙ ground (arith, lawful.held-delete i k s.palm, other)),
  )

  pub gone_remote : (k : ℕ) (p : palm.State) → lawful.held k (palm.delete_record k p).1 ≡ none
  gone_remote k p = lawful.held-delete k k p ∙ rw (==_refl k)

  pub delete_local-Synced :
      (k a : ℕ) (l : PdbRecord) (s : Conduit palm.State)
      → Ready k a l s
      → lawful.held k s.palm ≡ none
      → Lands Synced (delete_local a s)
  unfolding is_rsrc_db
  delete_local-Synced k a l s (fine, at_a, l_id, agree) e =
      rw (delete_local-eq a s at_a fine.0, l_id) (fine, Agree-delete _ k _ agree e)

  pub delete_both-Synced :
      (k a : ℕ) (l : PdbRecord) (s : Conduit palm.State)
      → Ready k a l s
      → Lands Synced ((delete_remote palm k >> delete_local a) s)
  delete_both-Synced k a l s ready =
      and_then Synced (delete_remote palm k) (λ _. delete_local a)
        (delete_remote-eq palm lawful k s)
        (delete_local-Synced k a l _ (Ready-delete_remote k a l s ready) (gone_remote k s.palm))

  pub delete_both'-Synced :
      (k a : ℕ) (l : PdbRecord) (s : Conduit palm.State)
      → Ready k a l s
      → Lands Synced ((delete_local a >> delete_remote palm k) s)
  unfolding is_rsrc_db
  delete_both'-Synced k a l s (fine, at_a, l_id, agree) =
      and_then Synced (delete_local a) (λ _. delete_remote palm k) (delete_local-eq a s at_a fine.0)
        (rw (delete_remote-eq palm lawful k (without l.id s), l_id)
          (fine, Agree-delete _ k _ but (gone_remote k s.palm)))
    where
      but : AgreeBut k (λ i. lawful.held i (palm.delete_record k s.palm).1) s.localdb.recs
      but = (Ready-delete_remote k a l s (fine, at_a, l_id, agree)).3

  pub upload-Synced :
      (k a : ℕ) (l : PdbRecord) (s : Conduit palm.State)
      → Ready k a l s
      → Lands Synced (upload palm a k s)
  unfolding is_rsrc_db
  upload-Synced k a l s (fine, at_a, l_id, agree) = rw (upload-eq palm lawful a k s at_a) (
    fine,
    Agree-move _ k _ agree _ a _ l at_a l_id fresh (λ i. lawful.held-write i k _ _ _ s.palm),
  )
    where
      fresh :
          (palm.write_record k l.flags l.category l.payload s.palm).1 ≢ k
          → (lawful.held (palm.write_record k l.flags l.category l.payload s.palm).1 s.palm ≡ none)
            × (lawful.held k s.palm ≡ none)
      fresh other = (
        lawful.fresh_id k _ _ _ s.palm other,
        ground (arith, other, lawful.keeps_id k l.flags l.category l.payload s.palm),
      )

  -- A copy of the remote record takes the place of the local one that has just been deleted.
  pub append-Synced :
      (k a flags : ℕ) (f : PdbRecord → PdbRecord) (l r : PdbRecord) (s : Conduit palm.State)
      → Ready k a l s
      → r.id ≡ k
      → ((x : PdbRecord) → (f x).id ≡ x.id)
      → ((x : PdbRecord) → content (f x) ≡ content x)
      → lawful.held k s.palm ≡ some (content r)
      → Lands Synced ((delete_local a >> (copy_remote flags r >>= λ new. append_local (f new))) s)
  unfolding is_rsrc_db
  append-Synced k a flags f l r s (fine, at_a, l_id, agree) r_id same_id same here =
      and_then Synced (delete_local a) (λ _. copy_remote flags r >>= λ new. append_local (f new))
        (delete_local-eq a s at_a fine.0)
        (and_then Synced (copy_remote flags r) (λ new. append_local (f new))
          (copy_remote-eq flags r (without l.id s) fine.1)
          (rw
            (
              append_local-eq (f (copy_of flags r (without l.id s))) (after_copy r (without l.id s))
                  fine.0,
              l_id,
            )
            (
              (fine.0, (malloc_for-found (length r.payload) s.memory fine.1).1),
              Agree-append _ k _ agree _ (same_id _ ∙ r_id)
                  (here ∙ ap some (sym (same (copy_of flags r (without l.id s))))),
            )))

  -- A copy of the remote record in the place of the local one.
  pub replace-Synced :
      (k a flags : ℕ) (f : PdbRecord → PdbRecord) (l r : PdbRecord) (s : Conduit palm.State)
      → Ready k a l s
      → r.id ≡ k
      → ((x : PdbRecord) → (f x).id ≡ x.id)
      → ((x : PdbRecord) → content (f x) ≡ content x)
      → lawful.held k s.palm ≡ some (content r)
      → Lands Synced ((copy_remote flags r >>= λ new. insert_local a (f new) >> delete_local a) s)
  unfolding is_rsrc_db
  replace-Synced k a flags f l r s (fine, at_a, l_id, agree) r_id same_id same here =
      and_then Synced (copy_remote flags r) (λ new. insert_local a (f new) >> delete_local a)
        (copy_remote-eq flags r s fine.1)
        (and_then Synced (insert_local a new) (λ _. delete_local a)
          (insert_local-eq a new (after_copy r s) at_a)
          (rw
            (delete_local-eq a (with_next a new (after_copy r s))
              (at_addr-insert_after a new s.localdb.recs l at_a) fine.0)
            (
              (fine.0, (malloc_for-found (length r.payload) s.memory fine.1).1),
              Agree-replace _ k _ agree a new l at_a l_id (same_id _ ∙ r_id)
                  (here ∙ ap some (sym (same (copy_of flags r s)))),
            )))
    where
      new : PdbRecord
      new = f (copy_of flags r s)

  -- The local record goes to the Palm as a new one, and a copy of the remote one comes behind it.
  pub insert-Synced :
      (k a flags : ℕ) (l r : PdbRecord) (s : Conduit palm.State)
      → Ready k a l s
      → r.id ≡ k
      → lawful.held k s.palm ≡ some (content r)
      → Lands Synced ((upload palm a 0 >> (copy_remote flags r >>= λ new. insert_local a new)) s)
  unfolding is_rsrc_db
  insert-Synced k a flags l r s (fine, at_a, l_id, agree) r_id here =
      and_then Synced (upload palm a 0) (λ _. copy_remote flags r >>= λ new. insert_local a new)
        (upload-eq palm lawful a 0 s at_a)
        (and_then Synced (copy_remote flags r) (λ new. insert_local a new)
          (copy_remote-eq flags r sent fine.1)
          (rw
            (insert_local-eq a (copy_of flags r sent) (after_copy r sent)
              (at_addr-update a (λ x. record x { id = n }) _ l (λ x. refl) at_a))
            (
              (fine.0, (malloc_for-found (length r.payload) s.memory fine.1).1),
              Agree-insert _ k _ agree _ a n l (copy_of flags r s) at_a l_id r_id other free here
                  (λ i. lawful.held-write i 0 _ _ _ s.palm),
            )))
    where
      sent : Conduit palm.State
      sent = with_upload palm lawful a 0 l s

      n : ℕ
      n = (palm.write_record 0 l.flags l.category l.payload s.palm).1

      free : lawful.held n s.palm ≡ none
      free = lawful.fresh_id 0 _ _ _ s.palm (lawful.new_id _ _ _ s.palm)

      other : n ≢ k
      other same = ground (arith, free, here, same)
