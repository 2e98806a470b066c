-- ===== src/Cmd/Lists/Ends.antt =====
-- When the loop over the arguments of a list of record identifiers ends.
use coldsync.Base.{ℕ, zero, suc, ◌≡◌, refl, arith, ◌==◌, if◌then◌else◌, lt→leb, false}
use coldsync.Base.{Option, some, none, List, ◌∷◌, length}
use coldsync.Bytes.{get_uword}
use coldsync.Conn.{PConnection, Result, ok, err, eof, fault, stuck}
use coldsync.Dlp.Packet.{DlpArg}
use coldsync.Cmd.Requests.Kinds
use coldsync.Cmd.Lists.{id_lists, arg_at}
use coldsync.Cmd.Lists.Ids.{get_ids, store_ids}

-- What the loop makes of the only argument: what it stores, or an access outside of the argument or
-- of the array.
abbrev stored : Option (ℕ × (ℕ × List ℕ)) → Result (ℕ × List ℕ)
stored none = fault
stored (some (i, r)) = ok r

abbrev listed : ℕ → DlpArg → ℕ × List ℕ → Result (ℕ × List ℕ)
listed max arg r = if arg.id == 0x20 then stored (get_ids max arg.payload r) else ok r

-- The same, as the result of the function.
abbrev with_zero : Result (ℕ × List ℕ) → Result (ℕ × (ℕ × List ℕ))
with_zero (ok r) = ok (0, r)
with_zero err = err
with_zero eof = eof
with_zero fault = fault
with_zero stuck = stuck

abbrev pub read_ids : ℕ → DlpArg → ℕ × List ℕ → Result (ℕ × (ℕ × List ℕ))
read_ids max arg r = with_zero (listed max arg r)

again_and_again :
    (fuel max : ℕ) (first : DlpArg) (rest : List ℕ) (more : List DlpArg) (r : ℕ × List ℕ)
    (c : PConnection)
    → id_lists fuel max (first ∷ record { id = 0x20; payload = 0 ∷ 0 ∷ rest } ∷ more) 1 r c
      ≡ (stuck, c)
unfolding id_lists arg_at get_ids get_uword store_ids
again_and_again zero max first rest more r c = refl
again_and_again (suc fuel) max first rest more r c =
    rw (lt→leb (suc (suc (length more))) 1 (omega arith))
      (again_and_again fuel max first rest more (0, r.1) c)

-- An empty list of identifiers that comes after an argument with another number is read again and
-- again: the loop does not end, whatever the fuel.
pub id_lists_stuck :
    (fuel max : ℕ) (first : DlpArg) (rest : List ℕ) (more : List DlpArg) (r : ℕ × List ℕ)
    (c : PConnection)
    → (first.id == 0x20) ≡ false
    → id_lists fuel max (first ∷ record { id = 0x20; payload = 0 ∷ 0 ∷ rest } ∷ more) 0 r c
      ≡ (stuck, c)
unfolding id_lists arg_at
id_lists_stuck zero max first rest more r c other = refl
id_lists_stuck (suc fuel) max first rest more r c other =
    rw (lt→leb (suc (suc (length more))) 0 (omega arith), other)
      (again_and_again fuel max first rest more r c)
