-- ===== src/Generic/Agree.antt =====
-- The records of the local database against those of the Palm, as maps from IDs to contents, under what
-- `SyncRecord` does to both.
use coldsync.Base.{
  ℕ, ◌==◌, true, false, Bool-cases, Option, none, some, List, [], ◌∷◌, ◌++◌, ◌≡◌, ◌≢◌, ◌⊎◌, refl,
  sym, ◌∙◌, arith, inl, inr, if◌then◌else◌,
}
use coldsync.Pdb.{PdbRecord, at_addr, update_at, delete_by_id, insert_after}
use coldsync.Pdb.Ids.{
  at_addr-update, Content, content, lookup, Unique, lookup-delete_by_id, lookup-append,
  lookup-update_id, lookup-at_addr,
}
use coldsync.Pdb.Unique.{
  Unique-delete_by_id, Unique-append, Unique-update_id, lookup-insert_after, Unique-insert_after,
  delete_by_id-insert_after, lookup-replace, Unique-replace,
}

-- What the local database holds is what lives on the Palm.
abbrev pub Agree : (ℕ → Option Content) → List PdbRecord → Type 0
Agree held recs = Unique recs × ((i : ℕ) → lookup i recs ≡ held i)

-- The same, apart from one ID.
abbrev pub AgreeBut : ℕ → (ℕ → Option Content) → List PdbRecord → Type 0
AgreeBut k held recs = Unique recs × ((i : ℕ) → k ≢ i → lookup i recs ≡ held i)

module _ (held : ℕ → Option Content) (k : ℕ) (recs : List PdbRecord)
    (agree : AgreeBut k held recs) where
  pub Agree-delete : held k ≡ none → Agree held (delete_by_id k recs)
  Agree-delete e = (
    Unique-delete_by_id k recs agree.0,
    λ i. lookup-delete_by_id i k recs agree.0 ∙ ground (arith, agree.1 i, e),
  )

  pub Agree-replace :
      (a : ℕ) (new l : PdbRecord)
      → at_addr a recs ≡ some l
      → l.id ≡ k
      → new.id ≡ k
      → held k ≡ some (content new)
      → Agree held (delete_by_id l.id (insert_after a new recs))
  Agree-replace a new l e l_id new_id here =
      rw (delete_by_id-insert_after a new recs l agree.0 e (l_id ∙ sym new_id)) (
        Unique-replace a new recs l agree.0 e (l_id ∙ sym new_id),
        λ i.
            lookup-replace i a new recs l agree.0 e (l_id ∙ sym new_id)
            ∙ ground (arith, agree.1 i, here, new_id),
      )

  pub Agree-append :
      (new : PdbRecord)
      → new.id ≡ k
      → held k ≡ some (content new)
      → Agree held (delete_by_id k recs ++ (new ∷ []))
  Agree-append new new_id here = (
    Unique-append (delete_by_id k recs) new (Unique-delete_by_id k recs agree.0) free,
    λ i.
        lookup-append i (delete_by_id k recs) new free
        ∙ rw (lookup-delete_by_id i k recs agree.0) (ground (arith, agree.1 i, here, new_id)),
  )
    where
      free : lookup new.id (delete_by_id k recs) ≡ none
      free = lookup-delete_by_id new.id k recs agree.0 ∙ ground (arith, new_id)

  pub Agree-same :
      (a : ℕ) (l : PdbRecord)
      → at_addr a recs ≡ some l
      → l.id ≡ k
      → held k ≡ some (content l)
      → Agree held recs
  Agree-same a l e l_id here = (agree.0, λ i. same i (Bool-cases (k == i)))
    where
      same : (i : ℕ) → ((k == i) ≡ true) ⊎ ((k == i) ≡ false) → lookup i recs ≡ held i
      same i (inl h) = ground (arith, lookup-at_addr a recs l agree.0 e, l_id, here, h)
      same i (inr h) = agree.1 i (ground (arith, h))

  -- The record at an address, with the ID that the Palm gave it.
  pub Agree-move :
      (held' : ℕ → Option Content) (a n : ℕ) (l : PdbRecord)
      → at_addr a recs ≡ some l
      → l.id ≡ k
      → (n ≢ k → (held n ≡ none) × (held k ≡ none))
      → ((i : ℕ) → held' i ≡ (if n == i then some (content l) else held i))
      → Agree held' (update_at a (λ r. record r { id = n }) recs)
  Agree-move held' a n l e l_id free moved = (
    Unique-update_id a n recs l agree.0 e fresh,
    λ i.
        lookup-update_id i a n recs l agree.0 e fresh
        ∙ ground (arith, moved i, agree.1 i, l_id, free),
  )
    where
      fresh : l.id ≢ n → lookup n recs ≡ none
      fresh other = ground (arith, agree.1 n, free, l_id, other)

  -- The same, and a record with the ID that has become free behind it.
  pub Agree-insert :
      (held' : ℕ → Option Content) (a n : ℕ) (l new : PdbRecord)
      → at_addr a recs ≡ some l
      → l.id ≡ k
      → new.id ≡ k
      → n ≢ k
      → held n ≡ none
      → held k ≡ some (content new)
      → ((i : ℕ) → held' i ≡ (if n == i then some (content l) else held i))
      → Agree held' (insert_after a new (update_at a (λ r. record r { id = n }) recs))
  Agree-insert held' a n l new e l_id new_id other free here moved = (
    Unique-insert_after a new _ _ unique at_a gap,
    λ i.
        lookup-insert_after i a new _ _ at_a gap
        ∙ rw (seen i) (ground (arith, moved i, agree.1 i, l_id, new_id, here, other)),
  )
    where
      fresh : l.id ≢ n → lookup n recs ≡ none
      fresh apart = agree.1 n (ground (arith, other)) ∙ free

      unique : Unique (update_at a (λ r. record r { id = n }) recs)
      unique = Unique-update_id a n recs l agree.0 e fresh

      at_a : at_addr a (update_at a (λ r. record r { id = n }) recs) ≡ some (record l { id = n })
      at_a = at_addr-update a (λ r. record r { id = n }) recs l (λ r. refl) e

      seen :
          (i : ℕ)
          → lookup i (update_at a (λ r. record r { id = n }) recs)
            ≡ (if n == i then some (content l) else if l.id == i then none else lookup i recs)
      seen i = lookup-update_id i a n recs l agree.0 e fresh

      gap : lookup new.id (update_at a (λ r. record r { id = n }) recs) ≡ none
      gap = seen new.id ∙ ground (arith, other, l_id, new_id)
