-- ===== src/Padp/Copying.antt =====
-- A fragment that is copied to its place in the message buffer.
use coldsync.Base.{ℕ, suc, ◌+◌, ◌≤◌, ◌≡◌, ap, ◌∙◌, arith, le→leb, Option, some}
use coldsync.Base.{List, [], ◌∷◌, ◌++◌, length, drop, length-append, take-append}
use coldsync.Conn.{PConnection, ok}
use coldsync.Padp.{PadpHeader}
use coldsync.Padp.Read.{copied, store_copy, copy_frag}

drop-append_more : (xs ys : List ℕ) (k : ℕ) → drop (length xs + k) (xs ++ ys) ≡ drop k ys
drop-append_more [] ys k = ap (λ (n : ℕ). drop n ys) (omega arith)
drop-append_more (x ∷ xs) ys k =
    ap (λ (n : ℕ). drop n (x ∷ (xs ++ ys))) {y = suc (length xs + k)} (omega arith)
    ∙ drop-append_more xs ys k

abbrev pub filled : List ℕ → List ℕ → List ℕ → List ℕ
filled done chunk tail = done ++ (chunk ++ drop (length chunk) tail)

abbrev pub with_message : List ℕ → PConnection → PConnection
with_message buf c = record c { padp = record c.padp { inbuf = some buf } }

module _ (header : PadpHeader) (done chunk zeros tail : List ℕ)
    (fits : length chunk ≤ length tail) where
  copied_lem :
      copied
        (length done)
        (record { header = header; buf = chunk ++ zeros; len = length chunk })
        (some (done ++ tail))
      ≡ some (filled done chunk tail)
  unfolding copied
  copied_lem = rw (
    le→leb (length chunk) (length (chunk ++ zeros)) (omega (arith, length-append chunk zeros)),
    le→leb (length done + length chunk) (length (done ++ tail))
        (omega (arith, length-append done tail, fits)),
    take-append chunk zeros,
    take-append done tail,
    drop-append_more done tail (length chunk),
  )

  pub copy_frag_lem :
      (c : PConnection)
      → c.padp.inbuf ≡ some (done ++ tail)
      → copy_frag
          (length done)
          (record { header = header; buf = chunk ++ zeros; len = length chunk })
          c
        ≡ (ok tt, with_message (filled done chunk tail) c)
  unfolding copy_frag store_copy
  copy_frag_lem c e =
      ap
        (λ (o : Option (List ℕ)).
          store_copy
            (copied (length done)
              (record { header = header; buf = chunk ++ zeros; len = length chunk }) o)
            c)
        e
      ∙ ap (λ (o : Option (List ℕ)). store_copy o c) copied_lem
