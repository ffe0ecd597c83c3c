-- ===== src/Tests/Blooms.antt =====
-- The frequency buckets at small inputs.
use duck_duck_xor.Base.{◌≡◌, refl}
use duck_duck_xor.Base.{true, some, [], ◌∷◌, ◌++◌, map, arith}
use duck_duck_xor.Base.{Bytes}
use duck_duck_xor.Base.{done}
use duck_duck_xor.Bloom.{Master, below_100, freq_bucket_add, new_bloom_master, bloom_worker}
use duck_duck_xor.Bloom.Toy.{toy_bloom}
use duck_duck_xor.Bloom.XSet.{total, AllTestEach}
use duck_duck_xor.Bloom.Freq.{At, bloom_worker-finishes_bucket}
use duck_duck_xor.Tests.Data.{duck, xor}

-- A master with one bucket, for two terms, of which there are none yet.
abbrev one_bucket : Master Bytes
one_bucket = record (new_bloom_master toy_bloom) {
  freq_buckets_ready = true;
  bloom_freq_buckets = λ b. some [];
  full_bucket_size = λ b. 2;
  current_bucket_size = λ b. 0;
}

one_bucket-At : At toy_bloom below_100 [] 2 0 one_bucket
one_bucket-At = record { filter_at = refl; size_at = refl; count_at = refl }

bloom_worker-finishes_bucket_example :
    (b' : Master Bytes) × (g : Bytes) × (bloom_worker toy_bloom
        (map (freq_bucket_add below_100) ((duck ∷ []) ∷ (xor ∷ []) ∷ []))
        one_bucket
      ≡ done b')
    × (b'.finished_freq_blooms ≡ one_bucket.finished_freq_blooms ++ (below_100, g) ∷ [])
    × AllTestEach toy_bloom g ((duck ∷ []) ∷ (xor ∷ []) ∷ [])
unfolding total
bloom_worker-finishes_bucket_example =
    bloom_worker-finishes_bucket toy_bloom below_100 [] (duck ∷ []) ((xor ∷ []) ∷ []) one_bucket
      one_bucket-At (omega arith) (omega arith, tt)
