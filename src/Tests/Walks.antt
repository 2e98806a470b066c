-- ===== src/Tests/Walks.antt =====
-- The walks over a local database at concrete inputs.
use coldsync.Base.{
  ℕ, ◌==◌, ◌≡◌, ◌≢◌, ◌↔◌, refl, arith, false, none, some, [], ◌∷◌, All, if◌then◌else◌,
}
use coldsync.Pdb.{is_rsrc_db, at_addr}
use coldsync.Pdb.Ids.{content, lookup}
use coldsync.Generic.Monad.{Conduit}
use coldsync.Generic.Records.{dirty}
use coldsync.Generic.Steps.{Lands}
use coldsync.Generic.Ready.{Synced}
use coldsync.Generic.Slow.{to_archive, slow_only}
use coldsync.Generic.Fast.{fast_local, fast_records}
use coldsync.Generic.Walks.{fast_local-Synced, slow_only_lem, IsClean}
use coldsync.Generic.FastWalk.{GivesSpare, Stands, fast_records-Synced}
use coldsync.Generic.First.{first_records}
use coldsync.Generic.FirstWalk.{Done, first_records-Done}
use coldsync.Tests.Palms.{sample, sample-IsLawful}
use coldsync.Tests.Sync.{third, conduit, first, second, unique, in_sync}

not_clean : IsClean first → sample-IsLawful.held 7 conduit.palm ≡ some (content first)
unfolding dirty
not_clean (_, _, e) = cc

fast_local-Synced_example : Lands (Synced sample sample-IsLawful) (fast_local sample 100 conduit)
unfolding at_addr is_rsrc_db
fast_local-Synced_example =
    fast_local-Synced sample sample-IsLawful 7 100 first conduit
      ((refl, refl), refl, refl, (unique, in_sync)) not_clean

abbrev bare : Conduit sample.State
bare = record conduit {
  palm = (10, λ i. if i == 9 then some (2, 4 ∷ []) else if i == 8 then some (2, 3 ∷ []) else none);
}

in_sync_bare : (i : ℕ) → 7 ≢ i → lookup i bare.localdb.recs ≡ sample-IsLawful.held i bare.palm
unfolding lookup
in_sync_bare i other = ground (arith, other)

slow_only_lem_example :
    Lands (Synced sample sample-IsLawful) (slow_only sample 100 first bare)
    ↔ (to_archive first ≡ false)
unfolding at_addr is_rsrc_db
slow_only_lem_example =
    slow_only_lem sample sample-IsLawful 7 100 first bare
      ((refl, refl), refl, refl, (unique, in_sync_bare)) refl

marked : IsClean second → sample-IsLawful.held 8 conduit.palm ≡ some (content second)
unfolding dirty
marked (_, _, e) = cc

stands : All (Stands sample sample-IsLawful conduit) conduit.localdb.recs
unfolding at_addr
stands = ((refl, not_clean), ((refl, marked), ((refl, λ _. refl), tt)))

nothing_else :
    (i : ℕ) → lookup i conduit.localdb.recs ≡ none → sample-IsLawful.held i conduit.palm ≡ none
unfolding lookup
nothing_else i free = ground (arith, free)

gives_spare : GivesSpare sample sample-IsLawful conduit.localdb.recs
unfolding lookup
gives_spare id flags category bytes p other = ground (arith, other)

fast_records-Synced_example : Lands (Synced sample sample-IsLawful) (fast_records sample conduit)
unfolding at_addr is_rsrc_db
fast_records-Synced_example =
    fast_records-Synced sample sample-IsLawful conduit gives_spare (refl, refl) unique
      (refl, (refl, (refl, tt))) stands nothing_else

abbrev downloaded : Conduit sample.State
downloaded = record conduit { remotedb = conduit.localdb }

first_records-Done_example :
    Lands (Done [] (first ∷ second ∷ third ∷ []) downloaded) (first_records downloaded)
unfolding is_rsrc_db at_addr
first_records-Done_example =
    first_records-Done downloaded refl refl unique (refl, (refl, (refl, tt)))
