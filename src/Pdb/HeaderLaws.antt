-- ===== src/Pdb/HeaderLaws.antt =====
-- What pdb_LoadHeader reads from a header that pdb_Write has written.
use coldsync.Base.{
  ◌%◌, Option, none, ℕ, ◌+◌, ◌≤◌, ◌≡◌, arith, bit_and, some, List, ◌++◌, append_assoc, length,
  length-append, take, drop, take-append, drop-append, take_all, le→ltb,
}
use coldsync.Base.Bits.Masks.{bit_and_low}
use coldsync.Bytes.{IsUword, IsUdword, get_uword, get_udword}
use coldsync.Bytes.Laws.{
  uword_bytes, udword_bytes, put_uword_lem, put_udword_lem, get-uword_bytes, get-udword_bytes,
}
use coldsync.Pdb.{Pdb}
use coldsync.Pdb.Header.{
  pdb_load_rec_list_header, list_header_bytes, pdb_load_header, parse_fields, header_bytes,
  first_offset, block_len, offset_of,
}

-- The fields fit into what the header has for them.
abbrev pub Fits : Pdb → Type 0
Fits db =
    (length db.name ≡ 32)
    × IsUword db.version
    × IsUdword db.ctime
    × IsUdword db.mtime
    × IsUdword db.baktime
    × IsUdword db.modnum
    × IsUdword (first_offset db + block_len db.appinfo)
    × IsUdword db.type
    × IsUdword db.creator
    × IsUdword db.unique_id_seed

field_bytes : Pdb → List ℕ → List ℕ
field_bytes db rest =
    uword_bytes (bit_and db.attributes 0x7fff)
    ++ (uword_bytes db.version
        ++ (udword_bytes db.ctime
            ++ (udword_bytes db.mtime
                ++ (udword_bytes db.baktime
                    ++ (udword_bytes db.modnum
                        ++ (udword_bytes (offset_of db.appinfo (first_offset db))
                            ++ (udword_bytes
                                  (offset_of db.sortinfo (first_offset db + block_len db.appinfo))
                                ++ (udword_bytes db.type
                                    ++ (udword_bytes db.creator
                                        ++ (udword_bytes db.unique_id_seed ++ rest))))))))))

header_bytes_lem :
    (db : Pdb) (rest : List ℕ)
    → length db.name ≡ 32
    → header_bytes db ++ rest ≡ db.name ++ field_bytes db rest
unfolding header_bytes field_bytes
header_bytes_lem db rest len =
    simp (put_uword_lem, put_udword_lem, append_assoc, take_all 32 db.name (omega (arith, len)))

-- A database with the fields that the header of another one has in a file.
abbrev pub loaded : Pdb → Pdb → Pdb
loaded db base = record base {
  name = db.name;
  attributes = bit_and db.attributes 0x7fff;
  version = db.version;
  ctime = db.ctime;
  mtime = db.mtime;
  baktime = db.baktime;
  modnum = db.modnum;
  appinfo_offset = offset_of db.appinfo (first_offset db);
  sortinfo_offset = offset_of db.sortinfo (first_offset db + block_len db.appinfo);
  type = db.type;
  creator = db.creator;
  unique_id_seed = db.unique_id_seed;
}

offset-Fits : (block : Option (List ℕ)) (n : ℕ) → IsUdword n → IsUdword (offset_of block n)
offset-Fits none n h = omega arith
offset-Fits (some block) n h = h

attributes-Fits : (a : ℕ) → IsUword (bit_and a 0x7fff)
attributes-Fits a = omega (arith, bit_and_low 15 a)

-- The fields behind one another, whatever the bytes of a word and of a double word are.
parse_fields_any :
    (u d : ℕ → List ℕ)
    → ((v : ℕ) (rest : List ℕ) → IsUword v → get_uword (u v ++ rest) ≡ some (v, rest))
    → ((v : ℕ) (rest : List ℕ) → IsUdword v → get_udword (d v ++ rest) ≡ some (v, rest))
    → (base : Pdb) (v0 v1 v2 v3 v4 v5 v6 v7 v8 v9 v10 : ℕ) (rest : List ℕ) → IsUword v0
    → IsUword v1
    → IsUdword v2
    → IsUdword v3
    → IsUdword v4
    → IsUdword v5
    → IsUdword v6
    → IsUdword v7
    → IsUdword v8
    → IsUdword v9
    → IsUdword v10
    → parse_fields
        (u v0
          ++ (u v1
              ++ (d v2
                  ++ (d v3
                      ++ (d v4
                          ++ (d v5 ++ (d v6 ++ (d v7 ++ (d v8 ++ (d v9 ++ (d v10 ++ rest)))))))))))
        base
      ≡ some (
        record base {
          attributes = v0;
          version = v1;
          ctime = v2;
          mtime = v3;
          baktime = v4;
          modnum = v5;
          appinfo_offset = v6;
          sortinfo_offset = v7;
          type = v8;
          creator = v9;
          unique_id_seed = v10;
        },
        rest,
      )
unfolding parse_fields
parse_fields_any u d get_u get_d base v0 v1 v2 v3 v4 v5 v6 v7 v8 v9 v10 rest h0 h1 h2 h3 h4 h5 h6 h7
      h8 h9 h10 =
    rw (
      get_u v0 _ h0,
      get_u v1 _ h1,
      get_d v2 _ h2,
      get_d v3 _ h3,
      get_d v4 _ h4,
      get_d v5 _ h5,
      get_d v6 _ h6,
      get_d v7 _ h7,
      get_d v8 _ h8,
      get_d v9 _ h9,
      get_d v10 _ h10,
    )

parse_fields_lem :
    (db base : Pdb) (rest : List ℕ)
    → Fits db
    → parse_fields (field_bytes db rest) (record base { name = db.name })
      ≡ some (loaded db base, rest)
unfolding field_bytes
parse_fields_lem db base rest
      (_, version, ctime, mtime, baktime, modnum, offset, type, creator, seed) =
    parse_fields_any uword_bytes udword_bytes get-uword_bytes get-udword_bytes
      (record base { name = db.name }) (bit_and db.attributes 0x7fff) db.version db.ctime db.mtime
      db.baktime db.modnum (offset_of db.appinfo (first_offset db))
      (offset_of db.sortinfo (first_offset db + block_len db.appinfo)) db.type db.creator
      db.unique_id_seed rest (attributes-Fits db.attributes) version ctime mtime baktime modnum
      (offset-Fits db.appinfo (first_offset db) (omega (arith, offset)))
      (offset-Fits db.sortinfo (first_offset db + block_len db.appinfo) offset) type creator seed

take_name : (xs ys : List ℕ) (n : ℕ) → length xs ≡ n → take n (xs ++ ys) ≡ xs
take_name xs ys n e = rw⁻¹ e (take-append xs ys)

drop_name : (xs ys : List ℕ) (n : ℕ) → length xs ≡ n → drop n (xs ++ ys) ≡ ys
drop_name xs ys n e = rw⁻¹ e (drop-append xs ys)

long_enough :
    (db : Pdb) (rest : List ℕ) → length db.name ≡ 32 → 72 ≤ length (db.name ++ field_bytes db rest)
unfolding field_bytes
long_enough db rest len = omega (arith, len, length-append db.name (field_bytes db rest))

-- From the header that pdb_Write writes for a database, whatever follows it, pdb_LoadHeader reads the
-- fields of that database, but for the mark of an open database, with the offsets of its blocks, and
-- leaves what follows; the name has 32 bytes, and the fields and the offsets fit into their words.
pub pdb_load_header-header_bytes :
    (db base : Pdb) (rest : List ℕ)
    → Fits db
    → pdb_load_header (header_bytes db ++ rest) base ≡ some (loaded db base, rest)
unfolding pdb_load_header
pdb_load_header-header_bytes db base rest fits =
    rw
      (
        header_bytes_lem db rest fits.0,
        le→ltb (length (db.name ++ field_bytes db rest)) 72 (long_enough db rest fits.0),
        take_name db.name (field_bytes db rest) 32 fits.0,
        drop_name db.name (field_bytes db rest) 32 fits.0,
      )
      (parse_fields_lem db base rest fits)

low_byte : (v : ℕ) → bit_and v 0xff ≡ v % 256
low_byte v = bit_and_low 8 v

list_header_bytes_lem :
    (db : Pdb) (rest : List ℕ)
    → list_header_bytes db ++ rest ≡ udword_bytes 0 ++ (uword_bytes db.numrecs ++ rest)
unfolding list_header_bytes
list_header_bytes_lem db rest = simp low_byte

load_list_any :
    (u d : List ℕ) (a b : ℕ) (base : Pdb) (rest : List ℕ)
    → 6 ≤ length (d ++ (u ++ rest))
    → ((t : List ℕ) → get_udword (d ++ t) ≡ some (a, t))
    → ((t : List ℕ) → get_uword (u ++ t) ≡ some (b, t))
    → pdb_load_rec_list_header (d ++ (u ++ rest)) base
      ≡ some (record base { next_reclist_id = a; numrecs = b }, rest)
unfolding pdb_load_rec_list_header
load_list_any u d a b base rest long get_d get_u =
    rw (le→ltb (length (d ++ (u ++ rest))) 6 long, get_d (u ++ rest), get_u rest)

-- From the header of the index that pdb_Write writes for a database, whatever follows it,
-- pdb_LoadRecListHeader reads the number of its records, which fits into a word, and 0 for the other
-- number, and leaves what follows.
pub pdb_load_rec_list_header-list_header_bytes :
    (db base : Pdb) (rest : List ℕ)
    → IsUword db.numrecs
    → pdb_load_rec_list_header (list_header_bytes db ++ rest) base
      ≡ some (record base { next_reclist_id = 0; numrecs = db.numrecs }, rest)
pdb_load_rec_list_header-list_header_bytes db base rest fits = rw (list_header_bytes_lem db rest) (
    load_list_any (uword_bytes db.numrecs) (udword_bytes 0) 0 db.numrecs base rest (omega arith)
      (λ t. get-udword_bytes 0 t (omega arith)) (λ t. get-uword_bytes db.numrecs t fits))
