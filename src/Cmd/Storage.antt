-- ===== src/Cmd/Storage.antt =====
-- libpconn/dlp_cmd.c: the memory cards.
use coldsync.Base.{ℕ, Option, some, List, [], ◌∷◌, drop}
use coldsync.Base.Maybe.{◌>>=◌}
use coldsync.Bytes.{get_ubyte, get_uword, get_udword, put_ubyte}
use coldsync.Conn.Monad.{M}
use coldsync.Dlp.{Transport}
use coldsync.Cmd.{Request, with_arg, on_arg, unknown_arg, call_clearing}
use coldsync.Cmd.Memory.{DlpTime, dlpcmd_gettime, memcpy, store}

-- `struct dlp_cardinfo`: the arrays have 32 bytes.
pub record CardInfo : Type 0 where
  pub totalsize : ℕ
  pub cardno : ℕ
  pub cardversion : ℕ
  pub ctime : DlpTime
  pub rom_size : ℕ
  pub ram_size : ℕ
  pub free_ram : ℕ
  pub cardname_size : ℕ
  pub manufname_size : ℕ
  pub cardname : List ℕ
  pub manufname : List ℕ
  pub rom_dbs : ℕ
  pub ram_dbs : ℕ
  pub reserved : List ℕ

-- `*last_card`, `*more` and `*cinfo`
pub record Storage : Type 0 where
  pub last_card : ℕ
  pub more : ℕ
  pub cinfo : CardInfo

unfoldable pub read_storage_info : ℕ → Request
read_storage_info card = with_arg 0x15 0x20 2 (put_ubyte (put_ubyte [] card) 0)

unfoldable pub clear_storage : Storage → Storage
clear_storage storage = record storage {
  cinfo = record storage.cinfo { rom_dbs = 0; ram_dbs = 0; reserved = 0 ∷ 0 ∷ 0 ∷ 0 ∷ [] };
}

-- A name of so many bytes, and a NUL.
unfoldable pub copy_name : List ℕ → List ℕ → ℕ → Option (List ℕ)
unfolding memcpy store
copy_name array rptr size = do array ← memcpy array rptr size; store array size 0

-- The first card of those that came; `*more` is set to 0. The byte that may pad a card is not looked
-- at.
unfoldable pub get_card : List ℕ → Storage → Option Storage
unfolding copy_name dlpcmd_gettime
get_card rptr storage = do
  (last_card, rptr) ← get_ubyte rptr
  (more, rptr) ← get_ubyte rptr
  (padding, rptr) ← get_ubyte rptr
  (act_count, rptr) ← get_ubyte rptr
  (totalsize, rptr) ← get_ubyte rptr
  (cardno, rptr) ← get_ubyte rptr
  (cardversion, rptr) ← get_uword rptr
  (ctime, rptr) ← dlpcmd_gettime rptr
  (rom_size, rptr) ← get_udword rptr
  (ram_size, rptr) ← get_udword rptr
  (free_ram, rptr) ← get_udword rptr
  (cardname_size, rptr) ← get_ubyte rptr
  (manufname_size, rptr) ← get_ubyte rptr
  cardname ← copy_name storage.cinfo.cardname rptr cardname_size
  manufname ← copy_name storage.cinfo.manufname (drop cardname_size rptr) manufname_size
  some (record storage {
    last_card = last_card;
    more = 0;
    cinfo = record storage.cinfo {
      totalsize = totalsize;
      cardno = cardno;
      cardversion = cardversion;
      ctime = ctime;
      rom_size = rom_size;
      ram_size = ram_size;
      free_ram = free_ram;
      cardname_size = cardname_size;
      manufname_size = manufname_size;
      cardname = cardname;
      manufname = manufname;
    };
  })

unfoldable pub get_card_ext : List ℕ → Storage → Option Storage
get_card_ext rptr storage = do
  (rom_dbs, rptr) ← get_uword rptr
  (ram_dbs, rptr) ← get_uword rptr
  (reserved1, rptr) ← get_udword rptr
  (reserved2, rptr) ← get_udword rptr
  (reserved3, rptr) ← get_udword rptr
  (reserved4, rptr) ← get_udword rptr
  some (record storage {
    cinfo = record storage.cinfo {
      rom_dbs = rom_dbs;
      ram_dbs = ram_dbs;
      reserved = reserved1 ∷ reserved2 ∷ reserved3 ∷ reserved4 ∷ [];
    };
  })

module _ (transport : Transport) where
  unfoldable pub dlp_read_storage_info : ℕ → Storage → M (ℕ × Storage)
  unfolding call_clearing read_storage_info clear_storage on_arg unknown_arg get_card get_card_ext
  dlp_read_storage_info card =
      call_clearing transport (read_storage_info card) clear_storage
        (on_arg 0x20 get_card (on_arg 0x21 get_card_ext unknown_arg))
