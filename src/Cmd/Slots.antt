-- ===== src/Cmd/Slots.antt =====
-- libpconn/dlp_cmd.c: the card in an expansion slot.
use coldsync.Base.{ℕ, ◌-◌, ◌==◌, leb, if◌then◌else◌}
use coldsync.Base.{Option, none, some, List, [], ◌∷◌, length, take}
use coldsync.Base.Maybe
use coldsync.Bytes.{get_uword, get_udword, put_uword, reverse_uword, reverse_udword}
use coldsync.Conn.Monad.{M, ◌>>=◌, pure, in_bounds}
use coldsync.Conn.Calls.{allocate}
use coldsync.Dlp.{Transport}
use coldsync.Dlp.Packet.{DlpArg}
use coldsync.Cmd.{Request, with_arg, send, conclude}

-- `struct dlp_expcardinfo`: `strings` is `none` where there was no memory for them.
pub record ExpCardInfo : Type 0 where
  pub capabilities : ℕ
  pub nstrings : ℕ
  pub strings : Option (List ℕ)

unfoldable pub exp_card_info : ℕ → Request
exp_card_info slotnum = with_arg 0x3e 0x20 2 (put_uword [] slotnum)

-- A PalmOS that sends 1024 strings has sent its numbers in the other byte order, and two bytes more.
unfoldable pub get_exp_numbers : List ℕ → Option (ℕ × ℕ × List ℕ)
get_exp_numbers rptr = Maybe.◌>>=◌ (get_udword rptr) (λ (capabilities, rptr).
    Maybe.◌>>=◌ (get_uword rptr) (λ (nstrings, rptr).
      if nstrings == 1024
      then Maybe.◌>>=◌ (get_uword rptr)
          (λ (thrown, rptr). some (reverse_udword capabilities, reverse_uword nstrings, rptr))
      else some (capabilities, nstrings, rptr)))

-- The rest of the argument, by its size less 6 bytes.
unfoldable pub copy_strings : ℕ → List ℕ → Option (List ℕ)
copy_strings size rptr = if leb (size - 6) (length rptr) then some (take (size - 6) rptr) else none

unfoldable pub get_exp_card : DlpArg → ExpCardInfo → M ExpCardInfo
unfolding get_exp_numbers copy_strings
get_exp_card arg info = do
  (capabilities, nstrings, rptr) ← in_bounds (get_exp_numbers arg.payload)
  found ← allocate
  strings ←
      if found
      then (in_bounds (copy_strings (length arg.payload) rptr) >>= λ s. pure (some s))
      else pure none
  pure (record { capabilities = capabilities; nstrings = nstrings; strings = strings })

unfoldable pub get_exp_cards : List DlpArg → ExpCardInfo → M ExpCardInfo
unfolding get_exp_card
get_exp_cards [] info = pure info
get_exp_cards (arg ∷ argv) info =
    (if arg.id == 0x20 then get_exp_card arg info else pure info) >>= get_exp_cards argv

unfoldable pub dlp_exp_card_info : Transport → ℕ → ExpCardInfo → M (ℕ × ExpCardInfo)
unfolding exp_card_info send conclude get_exp_cards
dlp_exp_card_info transport slotnum info =
    send transport (exp_card_info slotnum) >>= conclude transport get_exp_cards info
