-- ===== src/Generic/FastWalk.antt =====
-- The walk of `FastSync` over the whole local database.
use coldsync.Base.{
  ℕ, ◌==◌, true, false, Bool-cases, none, some, List, [], ◌∷◌, map, All, ◌≡◌, ◌≢◌, ◌⊎◌, refl, sym,
  ◌∙◌, inl, inr, arith,
}
use coldsync.Pdb.{PdbRecord, at_addr}
use coldsync.Pdb.Ids.{content, lookup, Unique}
use coldsync.Generic.Remote.{Palm, IsLawful}
use coldsync.Generic.Monad.{Conduit}
use coldsync.Generic.Steps.{Lands}
use coldsync.Generic.Ready.{Fine, Synced}
use coldsync.Generic.Freed.{Apart}
use coldsync.Generic.Slow.{for_each}
use coldsync.Generic.Fast.{fast_local, fast_records}
use coldsync.Generic.Walks.{IsClean}
use coldsync.Generic.Frames.{Lands-bind, Lands-map, Frame, Spare, fast_local-Frame}

module _ (palm : Palm) (lawful : IsLawful palm) where
  -- A record of the database that stands at its address, and that lives on the Palm if it has no mark.
  abbrev pub Stands : Conduit palm.State → PdbRecord → Type 0
  Stands s o =
      (at_addr o.addr s.localdb.recs ≡ some o)
      × (IsClean o → lawful.held o.id s.palm ≡ some (content o))

  -- The records that the walk has still to look at, while all other IDs agree.
  abbrev Left : List PdbRecord → Conduit palm.State → Type 0
  Left ls s =
      Fine palm lawful s
      × Unique s.localdb.recs
      × Unique ls
      × Apart ls
      × All (Stands s) ls
      × ((i : ℕ) → lookup i ls ≡ none → lookup i s.localdb.recs ≡ lawful.held i s.palm)

  -- No other record has changed, nor what the Palm has of it.
  abbrev Steady : ℕ → ℕ → ℕ → Conduit palm.State → Conduit palm.State → Type 0
  Steady k a n s s' =
      ((i : ℕ) → k ≢ i → n ≢ i → lawful.held i s'.palm ≡ lawful.held i s.palm)
      × ((b : ℕ) (o : PdbRecord)
          → b ≢ a
          → o.id ≢ k
          → at_addr b s.localdb.recs ≡ some o
          → at_addr b s'.localdb.recs ≡ some o)

  All-Stands :
      (k a n : ℕ) (s s' : Conduit palm.State) (ls : List PdbRecord)
      → Steady k a n s s'
      → lookup k ls ≡ none
      → lookup n ls ≡ none
      → at_addr a ls ≡ none
      → All (Stands s) ls
      → All (Stands s') ls
  unfolding lookup at_addr
  All-Stands k a n s s' [] steady no_k no_n no_a all = tt
  All-Stands k a n s s' (o ∷ ls) (same, others) no_k no_n no_a ((at_o, clean), all) = (
    (
      others o.addr o (ground (arith, no_a)) (ground (arith, no_k)) at_o,
      (λ c. same o.id (ground (arith, no_k)) (ground (arith, no_n)) ∙ clean c),
    ),
    All-Stands k a n s s' ls (same, others) (ground (arith, no_k)) (ground (arith, no_n))
        (ground (arith, no_a)) all,
  )

  Left-step :
      (l : PdbRecord) (ls : List PdbRecord) (s s' : Conduit palm.State)
      → Left (l ∷ ls) s
      → Frame palm lawful (λ n. lookup n ls ≡ none) l.id l.addr s tt s'
      → Left ls s'
  unfolding lookup
  Left-step l ls s s' (_, _, unique, apart, all, agree)
        (n, free, fine', unique', here, there, same, others) =
      (
        fine',
        unique',
        unique.1,
        apart.1,
        All-Stands l.id l.addr n s s' ls ((λ i k_i n_i. (same i k_i n_i).1), others) unique.0
            (no_n free) apart.0 all.1,
        λ i no_i. agrees i no_i (Bool-cases (l.id == i)) (Bool-cases (n == i)),
      )
    where
      no_n : (n ≡ l.id) ⊎ (lookup n ls ≡ none) → lookup n ls ≡ none
      no_n (inl e) = rw e unique.0
      no_n (inr e) = e

      agrees :
          (i : ℕ)
          → lookup i ls ≡ none
          → ((l.id == i) ≡ true) ⊎ ((l.id == i) ≡ false)
          → ((n == i) ≡ true) ⊎ ((n == i) ≡ false)
          → lookup i s'.localdb.recs ≡ lawful.held i s'.palm
      agrees i no_i (inl e) _ = ground (arith, here, e)
      agrees i no_i (inr e) (inl e') = ground (arith, there, e')
      agrees i no_i (inr e) (inr e') =
          (same i (ground (arith, e)) (ground (arith, e'))).0
          ∙ (agree i (ground (arith, e, no_i))
              ∙ sym (same i (ground (arith, e)) (ground (arith, e'))).1)

  -- An ID that the Palm gives to a record in place of its own is none of these records'.
  abbrev pub GivesSpare : List PdbRecord → Type 0
  GivesSpare ls =
      (id flags category : ℕ) (bytes : List ℕ) (p : palm.State)
      → (palm.write_record id flags category bytes p).1 ≢ id
      → lookup (palm.write_record id flags category bytes p).1 ls ≡ none

  walk-Synced :
      (ls : List PdbRecord) (s : Conduit palm.State)
      → GivesSpare ls
      → Left ls s
      → Lands (Synced palm lawful) (for_each (map (λ r. r.addr) ls) (fast_local palm) s)
  unfolding for_each lookup
  walk-Synced [] s gives (fine, unique, _, _, _, agree) = (fine, (unique, λ i. agree i refl))
  walk-Synced (l ∷ ls) s gives left =
      Lands-bind (Synced palm lawful) (fast_local palm l.addr)
        (λ _. for_each (map (λ r. r.addr) ls) (fast_local palm)) s
        (Lands-map (Frame palm lawful (λ n. lookup n ls ≡ none) l.id l.addr s)
          (λ _ s'.
            Lands (Synced palm lawful) (for_each (map (λ r. r.addr) ls) (fast_local palm) s'))
          (fast_local palm l.addr s)
          (λ _ s' frame. walk-Synced ls s' fewer (Left-step l ls s s' left frame))
          (fast_local-Frame palm lawful (λ n. lookup n ls ≡ none) l.addr l s spare
            (left.0, left.1, left.4.0.0) left.4.0.1))
    where
      fewer : GivesSpare ls
      fewer id flags category bytes p other = ground (arith, gives id flags category bytes p other)

      spare : Spare palm lawful (λ n. lookup n ls ≡ none) l s
      spare flags category bytes other = (
        fewer l.id flags category bytes s.palm other,
        left.5 _ (gives l.id flags category bytes s.palm other)
            ∙ lawful.fresh_id l.id flags category bytes s.palm other,
      )

  -- If the Palm takes every record that it is sent and else keeps to the laws of `IsLawful`, by
  -- which it may have no record to delete, and gives to a record that it does not have its own ID or
  -- one that no record of the local database has, memory is found, the local database is no resource
  -- database, its IDs and its addresses are unique, each of its records stands at its address, and
  -- has the content that lives on the Palm if it has no mark, and nothing else lives on the Palm,
  -- then the walk of `FastSync` over the local database succeeds, and leaves one of unique IDs that
  -- holds just what lives on the Palm.
  pub fast_records-Synced :
      (s : Conduit palm.State)
      → GivesSpare s.localdb.recs
      → Fine palm lawful s
      → Unique s.localdb.recs
      → Apart s.localdb.recs
      → All (Stands s) s.localdb.recs
      → ((i : ℕ) → lookup i s.localdb.recs ≡ none → lawful.held i s.palm ≡ none)
      → Lands (Synced palm lawful) (fast_records palm s)
  unfolding fast_records
  fast_records-Synced s gives fine unique apart all empty =
      walk-Synced s.localdb.recs s gives
        (fine, unique, unique, apart, all, λ i free. free ∙ sym (empty i free))
