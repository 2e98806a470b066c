-- ===== src/Generic/Order.antt =====
-- The comparison of records as an order.
use Prim.Native.Nat.{Ordering}
use coldsync.Base.{ℕ, true, List, [], ◌∷◌, ◌≡◌, ◌↔◌, refl, arith}
use coldsync.Pdb.{PdbRecord}
use coldsync.Pdb.Ids.{content}
use coldsync.Generic.Records.{compare_bytes, compare_rec, is_equal}

abbrev pub flip : Ordering → Ordering
flip Ordering.lt = Ordering.gt
flip Ordering.eq = Ordering.eq
flip Ordering.gt = Ordering.lt

compare_bytes_refl : (xs : List ℕ) → compare_bytes xs xs ≡ Ordering.eq
unfolding compare_bytes
compare_bytes_refl [] = refl
compare_bytes_refl (x ∷ xs) = ground (arith, compare_bytes_refl xs)

pub compare_bytes→eq : (xs ys : List ℕ) → compare_bytes xs ys ≡ Ordering.eq → xs ≡ ys
unfolding compare_bytes
compare_bytes→eq [] [] e = refl
compare_bytes→eq [] (y ∷ ys) e = cc
compare_bytes→eq (x ∷ xs) [] e = cc
compare_bytes→eq (x ∷ xs) (y ∷ ys) e = ground (arith, compare_bytes→eq xs ys)

compare_bytes-flip : (xs ys : List ℕ) → compare_bytes ys xs ≡ flip (compare_bytes xs ys)
unfolding compare_bytes
compare_bytes-flip [] [] = refl
compare_bytes-flip [] (y ∷ ys) = refl
compare_bytes-flip (x ∷ xs) [] = refl
compare_bytes-flip (x ∷ xs) (y ∷ ys) = ground (arith, compare_bytes-flip xs ys)

pub compare_rec→eq : (l r : PdbRecord) → compare_rec l r ≡ Ordering.eq → content l ≡ content r
unfolding compare_rec
compare_rec→eq l r e = ground (arith, compare_bytes→eq l.payload r.payload)

eq→compare_rec : (l r : PdbRecord) → content l ≡ content r → compare_rec l r ≡ Ordering.eq
unfolding compare_rec
eq→compare_rec l r e = ground (arith, compare_bytes_refl l.payload, e)

pub is_equal→eq : (o : Ordering) → is_equal o ≡ true → o ≡ Ordering.eq
is_equal→eq Ordering.lt e = cc
is_equal→eq Ordering.eq e = refl
is_equal→eq Ordering.gt e = cc

compare_rec-flip : (l r : PdbRecord) → compare_rec r l ≡ flip (compare_rec l r)
unfolding compare_rec
compare_rec-flip l r = ground (arith, compare_bytes-flip l.payload r.payload)

-- `compare_rec` of two records is 0 exactly if they have the same category and the same data, and with
-- the records swapped it has the opposite sign.
pub compare_rec_lem :
    (l r : PdbRecord)
    → ((compare_rec l r ≡ Ordering.eq) ↔ (content l ≡ content r))
      × (compare_rec r l ≡ flip (compare_rec l r))
compare_rec_lem l r = ((compare_rec→eq l r, eq→compare_rec l r), compare_rec-flip l r)
