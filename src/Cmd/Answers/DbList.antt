-- ===== src/Cmd/Answers/DbList.antt =====
-- The list of databases that a response carries.
use coldsync.Base.{ℕ, zero, suc, ◌-◌, ◌^◌, ◌%◌, ◌≤◌, ◌≡◌, refl, sym, ap, ◌∙◌, arith, ◌==◌, false}
use coldsync.Base.{
  some, List, [], ◌∷◌, ◌++◌, append_assoc, append-nil, map, length, replicate, drop, drop-append,
  All,
}
use coldsync.Bytes.{IsUword, IsUdword, get_ubyte, get_uword, get_udword, put_ubyte}
use coldsync.Bytes.Laws.{
  uword_bytes, udword_bytes, put_uword_lem, get-uword_bytes, get-udword_bytes,
}
use coldsync.Cmd.Memory.{DlpTime, dlpcmd_gettime, strncpy}
use coldsync.Conn.{PConnection, ok}
use coldsync.Dlp.{Transport}
use coldsync.Dlp.Exchange.{Replies, answered_with}
use coldsync.Cmd.{on_arg, unknown_arg}
use coldsync.Cmd.Requests.{one_arg_lem}
use coldsync.Cmd.Answers.{the_arg, call_one}
use coldsync.Cmd.Databases.{
  DbInfo, DbList, parse_dbinfo, parse_dbs, get_db_list, read_db_list, dlp_read_db_list,
}

-- A name, up to the NUL that ends it.
pub strncpy_lem :
    (n : ℕ) (name rest : List ℕ)
    → length name ≤ n
    → All (λ (b : ℕ). (b == 0) ≡ false) name
    → strncpy n (name ++ (0 ∷ rest)) ≡ some (name ++ replicate (n - length name) 0)
unfolding strncpy
strncpy_lem zero [] rest h nonzero = refl
strncpy_lem (suc n) [] rest h nonzero =
    ap (λ (k : ℕ). some (replicate k 0)) {x = suc n} (omega arith)
strncpy_lem zero (b ∷ name) rest h nonzero = absurd (omega (arith, h))
strncpy_lem (suc n) (b ∷ name) rest h (nz, nonzero) =
    rw (nz, strncpy_lem n name rest (omega (arith, h)) nonzero)
      (ap (λ (k : ℕ). some (b ∷ (name ++ replicate k 0))) (omega arith))

-- The bytes of a time.
abbrev time_bytes : (ℕ → List ℕ) → DlpTime → List ℕ → List ℕ
time_bytes u t rest = u t.year ++ (t.month ∷ t.day ∷ t.hour ∷ t.minute ∷ t.second ∷ 0 ∷ rest)

-- What a response has for a database: 44 bytes, its name and a NUL, and as many bytes more.
abbrev db_bytes : (ℕ → List ℕ) → (ℕ → List ℕ) → DbInfo → List ℕ → List ℕ → List ℕ
db_bytes u d db name tail =
    db.size
    ∷ db.misc_flags
    ∷ (u db.db_flags
        ++ (d db.type
            ++ (d db.creator
                ++ (u db.version
                    ++ (d db.modnum
                        ++ time_bytes u db.ctime (
                            time_bytes u db.mtime
                              (time_bytes u db.baktime (u db.index ++ (name ++ (0 ∷ tail))))))))))

-- The fields of an entry fit into what a response has for them. Its name has 31 bytes at most, none
-- of them 0, and is followed by zeros in the array.
pub record IsDbInfo (db : DbInfo) (name : List ℕ) : Type 0 where
  pub db_flags : IsUword db.db_flags
  pub type : IsUdword db.type
  pub creator : IsUdword db.creator
  pub version : IsUword db.version
  pub modnum : IsUdword db.modnum
  pub ctime : IsUword db.ctime.year
  pub mtime : IsUword db.mtime.year
  pub baktime : IsUword db.baktime.year
  pub index : IsUword db.index
  pub short : length name ≤ 31
  pub nonzero : All (λ (b : ℕ). (b == 0) ≡ false) name
  pub padded : db.name ≡ (name ++ replicate (31 - length name) 0) ++ (0 ∷ [])

module _ (u d : ℕ → List ℕ)
    (hu : (v : ℕ) (rest : List ℕ) → IsUword v → get_uword (u v ++ rest) ≡ some (v, rest))
    (hd : (v : ℕ) (rest : List ℕ) → IsUdword v → get_udword (d v ++ rest) ≡ some (v, rest)) where
  gettime_any :
      (t : DlpTime) (rest : List ℕ)
      → IsUword t.year
      → dlpcmd_gettime (time_bytes u t rest) ≡ some (t, rest)
  unfolding dlpcmd_gettime get_ubyte
  gettime_any t rest h =
      rw (hu t.year (t.month ∷ t.day ∷ t.hour ∷ t.minute ∷ t.second ∷ 0 ∷ rest) h)

  parse_dbinfo_any :
      (db : DbInfo) (name tail : List ℕ)
      → IsDbInfo db name
      → parse_dbinfo (db_bytes u d db name tail)
        ≡ some (db, drop db.size (db_bytes u d db name tail))
  unfolding parse_dbinfo get_ubyte
  parse_dbinfo_any db name tail h = rw (
    hu db.db_flags _ h.db_flags,
    hd db.type _ h.type,
    hd db.creator _ h.creator,
    hu db.version _ h.version,
    hd db.modnum _ h.modnum,
    gettime_any db.ctime _ h.ctime,
    gettime_any db.mtime _ h.mtime,
    gettime_any db.baktime _ h.baktime,
    hu db.index _ h.index,
    strncpy_lem 31 name tail h.short h.nonzero,
    sym h.padded,
  )

-- An entry of a list: what follows the NUL of the name fills it up to the size that it says.
pub record Entry : Type 0 where
  pub db : DbInfo
  pub name : List ℕ
  pub fill : List ℕ

unfoldable pub db_entry_bytes : (ℕ → List ℕ) → (ℕ → List ℕ) → Entry → List ℕ → List ℕ
db_entry_bytes u d entry rest = db_bytes u d entry.db entry.name (entry.fill ++ rest)

abbrev pub entries_bytes : (ℕ → List ℕ) → (ℕ → List ℕ) → List Entry → List ℕ
entries_bytes u d [] = []
entries_bytes u d (entry ∷ entries) = db_entry_bytes u d entry (entries_bytes u d entries)

pub record IsEntry (u d : ℕ → List ℕ) (entry : Entry) : Type 0 where
  pub info : IsDbInfo entry.db entry.name
  pub sized : entry.db.size ≡ length (db_entry_bytes u d entry [])

abbrev pub the_db : Entry → DbInfo
the_db entry = entry.db

module _ (u d : ℕ → List ℕ)
    (hu : (v : ℕ) (rest : List ℕ) → IsUword v → get_uword (u v ++ rest) ≡ some (v, rest))
    (hd : (v : ℕ) (rest : List ℕ) → IsUdword v → get_udword (d v ++ rest) ≡ some (v, rest)) where
  entry_append :
      (entry : Entry) (rest : List ℕ)
      → db_entry_bytes u d entry rest ≡ db_entry_bytes u d entry [] ++ rest
  unfolding db_entry_bytes
  entry_append entry rest = simp (append_assoc, append-nil)

  drop_entry :
      (entry : Entry) (rest : List ℕ)
      → IsEntry u d entry
      → drop entry.db.size (db_entry_bytes u d entry rest) ≡ rest
  drop_entry entry rest h =
      ap (λ (n : ℕ). drop n (db_entry_bytes u d entry rest)) h.sized
      ∙ rw (entry_append entry rest) (drop-append (db_entry_bytes u d entry []) rest)

  parse_db_entry :
      (entry : Entry) (rest : List ℕ)
      → IsEntry u d entry
      → parse_dbinfo (db_entry_bytes u d entry rest) ≡ some (entry.db, rest)
  unfolding db_entry_bytes
  parse_db_entry entry rest h =
      parse_dbinfo_any u d hu hd entry.db entry.name (entry.fill ++ rest) h.info
      ∙ ap (λ (bytes : List ℕ). some (entry.db, bytes)) (drop_entry entry rest h)

  parse_entries :
      (entries : List Entry) (dbs : List DbInfo)
      → All (IsEntry u d) entries
      → parse_dbs (length entries) (entries_bytes u d entries) dbs
        ≡ some (dbs ++ map the_db entries)
  unfolding parse_dbs
  parse_entries [] dbs h = ap some (sym (append-nil dbs))
  parse_entries (entry ∷ entries) dbs (h, hs) =
      rw (parse_db_entry entry (entries_bytes u d entries) h) (
        parse_entries entries (dbs ++ (entry.db ∷ [])) hs
        ∙ ap some (append_assoc dbs (entry.db ∷ []) (map the_db entries)))

  get_entries :
      (last_index oflags : ℕ) (entries : List Entry) (old : DbList)
      → IsUword last_index
      → All (IsEntry u d) entries
      → get_db_list (u last_index ++ (oflags ∷ length entries ∷ entries_bytes u d entries)) old
        ≡ some (record {
          last_index = last_index;
          oflags = oflags;
          num = length entries;
          dbs = old.dbs ++ map the_db entries;
        })
  unfolding get_db_list get_ubyte
  get_entries last_index oflags entries old hl h = rw (
    hu last_index (oflags ∷ length entries ∷ entries_bytes u d entries) hl,
    parse_entries entries old.dbs h,
  )

-- The bytes of a list in a response.
abbrev pub list_bytes : ℕ → ℕ → List Entry → List ℕ
list_bytes last_index oflags entries =
    uword_bytes last_index
    ++ (oflags ∷ length entries ∷ entries_bytes uword_bytes udword_bytes entries)

list_laid_out :
    (iflags card start : ℕ)
    → (read_db_list iflags card start).argv
      ≡ some (the_arg ((iflags % 2 ^ 8) ∷ (card % 2 ^ 8) ∷ uword_bytes start))
unfolding read_db_list coldsync.Cmd.with_arg put_ubyte
list_laid_out iflags card start =
    rw put_uword_lem
      (one_arg_lem 0x20 4 ((iflags % 2 ^ 8) ∷ (card % 2 ^ 8) ∷ uword_bytes start) (omega arith))

-- When the Palm takes the request for the list of databases, and answers without an error and with
-- entries that say how long they are, `dlp_read_db_list` returns 0, and adds the databases of those
-- entries to the caller's, in their order.
pub dlp_read_db_list_lem :
    (transport : Transport) (iflags card start last_index oflags : ℕ) (entries : List Entry)
    (old : DbList) (c c' : PConnection)
    → IsUword last_index
    → All (IsEntry uword_bytes udword_bytes) entries
    → Replies transport 0x16
        (the_arg ((iflags % 2 ^ 8) ∷ (card % 2 ^ 8) ∷ uword_bytes start))
        0
        (the_arg (list_bytes last_index oflags entries))
        c
        c'
    → dlp_read_db_list transport iflags card start old c ≡ (
      ok (
        0,
        record {
          last_index = last_index;
          oflags = oflags;
          num = length entries;
          dbs = old.dbs ++ map the_db entries;
        },
      ),
      answered_with 0x16 0 (the_arg (list_bytes last_index oflags entries)) c',
    )
unfolding dlp_read_db_list read_db_list coldsync.Cmd.with_arg coldsync.Cmd.on_arg
dlp_read_db_list_lem transport iflags card start last_index oflags entries old c c' hl h replies =
    call_one transport (read_db_list iflags card start)
      (the_arg ((iflags % 2 ^ 8) ∷ (card % 2 ^ 8) ∷ uword_bytes start))
      (list_bytes last_index oflags entries) c c' (omega arith) (list_laid_out iflags card start)
      replies (on_arg 0x20 get_db_list unknown_arg) old
      (get_entries uword_bytes udword_bytes get-uword_bytes get-udword_bytes last_index oflags
        entries old hl h)
