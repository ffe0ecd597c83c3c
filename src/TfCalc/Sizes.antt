-- ===== src/TfCalc/Sizes.antt =====
-- The sizes of the frequency buckets against the counts of the words.
use duck_duck_xor.Base.{ℕ, ◌+◌, ◌≡◌}
use duck_duck_xor.Base.{Bool, ◌||◌, [], ◌∷◌, arith}
use duck_duck_xor.Base.{leb, ◌==◌, if◌then◌else◌}
use duck_duck_xor.Base.{length}
use duck_duck_xor.TfCalc.{Frequencies, BucketVals, no_vals, count_size, calculate_bucket_sizes}

-- All words of the four buckets.
abbrev pub all_vals : BucketVals → ℕ
all_vals b = b.lt_hundred + b.lt_one_k + b.lt_ten_k + b.lt_hundred_k

-- The counts that belong to no bucket.
abbrev pub is_between : ℕ → Bool
is_between n = (n == 100) || ((n == 1000) || ((n == 10000) || leb 100000 n))

-- How many words have such a count.
unfoldable pub left_out : Frequencies → ℕ
left_out [] = 0
left_out ((word, size) ∷ m) = (if is_between size then 1 else 0) + left_out m

count_size-all :
    (size : ℕ) (b : BucketVals)
    → all_vals (count_size size b) + (if is_between size then 1 else 0) ≡ all_vals b + 1
unfolding count_size
count_size-all size b = ground arith

sizes_from :
    (m : Frequencies) (b : BucketVals)
    → all_vals (calculate_bucket_sizes m b) + left_out m ≡ all_vals b + length m
unfolding calculate_bucket_sizes left_out
sizes_from [] b = omega arith
sizes_from ((word, size) ∷ m) b =
    omega (arith, sizes_from m (count_size size b), count_size-all size b)

-- The sizes of the four buckets miss as many words as have a count of exactly 100, 1000 or 10000,
-- or of 100000 and more.
pub calculate_bucket_sizes-all :
    (m : Frequencies) → all_vals (calculate_bucket_sizes m no_vals) + left_out m ≡ length m
calculate_bucket_sizes-all m = omega (arith, sizes_from m no_vals)
