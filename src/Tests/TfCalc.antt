-- ===== src/Tests/TfCalc.antt =====
-- A bloom master whose buckets have no word yet.
use duck_duck_xor.Base.{◌≡◌, refl}
use duck_duck_xor.Base.{true, some, [], ◌∷◌, ◌++◌}
use duck_duck_xor.Base.{Bytes}
use duck_duck_xor.Base.{done}
use duck_duck_xor.TfCalc.{no_vals}
use duck_duck_xor.Bloom.{
  below_100, below_1000, below_10000, below_100000, Master, Inbox, new_bloom_master, bloom_worker,
}
use duck_duck_xor.Bloom.Toy.{toy_bloom}
use duck_duck_xor.TfCalc.Populate.{
  made_for_none, populate_bloom_filters, populate_bloom_filters-saves_no_word,
}

-- The first bucket is made for two words, and the others for none.
abbrev made : Master Bytes
made = record (new_bloom_master toy_bloom) {
  freq_buckets_ready = true;
  bloom_freq_buckets = λ b. some [];
  full_bucket_size = λ b. elim b [ below_100 ↦ 2 | _ ↦ 0 ];
  current_bucket_size = λ b. 0;
}

populate_bloom_filters-saves_no_word_example :
    (q : Inbox) × (b' : Master Bytes) × (populate_bloom_filters [] no_vals
        (record { shutdown = 0; msg_chan = [] })
      ≡ done q)
    × (bloom_worker toy_bloom q.msg_chan made ≡ done b')
    × (b'.finished_freq_blooms
        ≡ made.finished_freq_blooms
          ++ made_for_none toy_bloom
              (below_100 ∷ below_1000 ∷ below_10000 ∷ below_100000 ∷ [])
              made)
populate_bloom_filters-saves_no_word_example =
    populate_bloom_filters-saves_no_word toy_bloom made (λ t f h. refl)

made_for_none_made :
    made_for_none toy_bloom (below_100 ∷ below_1000 ∷ below_10000 ∷ below_100000 ∷ []) made
    ≡ (below_1000, []) ∷ (below_10000, []) ∷ (below_100000, []) ∷ []
unfolding made_for_none
made_for_none_made = refl
