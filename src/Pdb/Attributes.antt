-- ===== src/Pdb/Attributes.antt =====
-- `merge_attributes` and `split_attributes`: flags and category share a byte in a file.
use coldsync.Base.Bits.Masks.{all_below, all_below_sound}
use coldsync.Base.{ℕ, ◌<◌, ◌≡◌, refl, arith, ◌==◌, if◌then◌else◌, bit_and, bit_or, Bool, true, ◌&&◌}

unfoldable pub merge_attributes : ℕ → ℕ → ℕ
merge_attributes flags category =
    if bit_and flags 0x20 == 0
    then bit_or (bit_and flags 0xf0) (bit_and category 0x0f)
    else bit_and flags 0xf8

unfoldable pub split_attributes : ℕ → ℕ × ℕ
split_attributes attributes =
    if bit_and attributes 0x20 == 0
    then (bit_and attributes 0xf0, bit_and attributes 0x0f)
    else (bit_and attributes 0xf8, 0)

-- The flags and the category that a byte can keep: a deleted record has lost its category.
abbrev pub kept : ℕ → ℕ → ℕ × ℕ
kept flags category =
    if bit_and flags 0x20 == 0 then (bit_and flags 0xf0, category) else (bit_and flags 0xf8, 0)

same_pair : ℕ × ℕ → ℕ × ℕ → Bool
same_pair (a, b) (c, d) = a == c && b == d

same_pair_sound : (p q : ℕ × ℕ) → same_pair p q ≡ true → p ≡ q
unfolding same_pair
same_pair_sound (a, b) (c, d) e = ground (arith, e)

agrees : ℕ → ℕ → Bool
unfolding merge_attributes split_attributes same_pair
agrees flags category =
    same_pair (split_attributes (merge_attributes flags category)) (kept flags category)

all_agree : all_below 256 (λ f. all_below 16 (agrees f)) ≡ true
unfolding all_below agrees
all_agree = refl

-- `split_attributes` takes apart what `merge_attributes` has put together from a byte of flags and a
-- category below 16: the four high flags and the category come back, and of a deleted record the five
-- high flags and the category 0.
pub split_attributes-merge_attributes :
    (flags category : ℕ)
    → flags < 256
    → category < 16
    → split_attributes (merge_attributes flags category) ≡ kept flags category
unfolding agrees
split_attributes-merge_attributes flags category f c = same_pair_sound _ _ (
    all_below_sound (agrees flags) 16 category c
      (all_below_sound (λ x. all_below 16 (agrees x)) 256 flags f all_agree))
