-- ===== src/Generic/Remote.antt =====
-- What the conduit asks of the Palm, by the calls of libpconn/dlp_cmd.c, over a state that it does not
-- look into.
use coldsync.Base.{ℕ, ◌==◌, if◌then◌else◌, ◌≡◌, ◌≢◌, ◌⊎◌, Bool, true, Option, none, some, List}
use coldsync.Pdb.Ids.{Content}

-- `dlp_stat_t`, as far as the conduit tells its values apart.
pub data DlpStat : Type 0 where
  noerr notfound other : DlpStat

-- DlpDeleteRecord, DlpWriteRecord with ID, flags, category and data, and PConn_isonline. A write also
-- answers with the ID that the record has got.
pub record Palm : Type 1 where
  pub State : Type 0
  pub is_online : State → Bool
  pub delete_record : ℕ → State → DlpStat × State
  pub write_record : ℕ → ℕ → ℕ → List ℕ → State → DlpStat × ℕ × State

-- The records that live on the Palm, and what the calls do to them: a record that was deleted lives no
-- longer; a write with the ID of a record that lives replaces it, and any other makes a new one.
pub record IsLawful (palm : Palm) : Type 0 where
  pub held : ℕ → palm.State → Option Content
  -- A deletion is done, or there was nothing to delete, and a Palm that says so is online.
  pub answers_delete :
      (id : ℕ) (s : palm.State)
      → ((palm.delete_record id s).0 ≡ noerr)
        ⊎ (((palm.delete_record id s).0 ≡ notfound)
            × (held id s ≡ none)
            × (palm.is_online (palm.delete_record id s).1 ≡ true))
  pub accepts_write :
      (id flags category : ℕ) (bytes : List ℕ) (s : palm.State)
      → (palm.write_record id flags category bytes s).0 ≡ noerr
  pub held-delete :
      (i id : ℕ) (s : palm.State)
      → held i (palm.delete_record id s).1 ≡ (if id == i then none else held i s)
  pub held-write :
      (i id flags category : ℕ) (bytes : List ℕ) (s : palm.State)
      → held i (palm.write_record id flags category bytes s).2 ≡ (
          if (palm.write_record id flags category bytes s).1 == i
          then some (category, bytes)
          else held i s)
  -- A record that lives keeps its ID; a record that gets another one gets one that was free.
  pub keeps_id :
      (id flags category : ℕ) (bytes : List ℕ) (s : palm.State)
      → held id s ≢ none
      → (palm.write_record id flags category bytes s).1 ≡ id
  pub fresh_id :
      (id flags category : ℕ) (bytes : List ℕ) (s : palm.State)
      → (palm.write_record id flags category bytes s).1 ≢ id
      → held (palm.write_record id flags category bytes s).1 s ≡ none
  pub no_zero : (s : palm.State) → held 0 s ≡ none
  pub new_id :
      (flags category : ℕ) (bytes : List ℕ) (s : palm.State)
      → (palm.write_record 0 flags category bytes s).1 ≢ 0
