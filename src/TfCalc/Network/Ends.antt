-- ===== src/TfCalc/Network/Ends.antt =====
-- A calculator with one mapper: every run ends with the words of all documents counted.
use duck_duck_xor.Base.{ℕ, ◌%◌, ◌<◌, ◌≡◌, refl, ap, inl, inr}
use duck_duck_xor.Base.{List, arith}
use duck_duck_xor.Base.{◌==◌, if◌then◌else◌}
use duck_duck_xor.Base.{sum_by, Inevitably, Ends, Ends-Inevitably}
use duck_duck_xor.Base.{Bytes}
use duck_duck_xor.Bloom.{u64}
use duck_duck_xor.TfCalc.{add_vals}
use duck_duck_xor.TfCalc.Reduce.{count_in}
use duck_duck_xor.TfCalc.Network.{
  Network, start_network, Step, Reach, start, later, Panics, IsFinished,
}
use duck_duck_xor.TfCalc.Network.Counts.{
  holds, on_its_way, mappers_empty, shufflers_empty, Reach-IsCounted,
}
use duck_duck_xor.TfCalc.Network.Order.Steps.{
  Reach-MapperOrder, Reach-ShufflerOrder, Reach-ReducerOrder,
}
use duck_duck_xor.TfCalc.Network.Sizes.{size_of, Reach-sums}
use duck_duck_xor.TfCalc.Network.Measure.{steps_left, Step-steps_left}
use duck_duck_xor.TfCalc.Network.Progress.{no_panic, progress}

-- The end of a run: the goroutines have ended, each reducer has the count of its words in all
-- documents, and bloomFilterInitializer the sums of the sizes of all reducers.
pub record IsComplete (fnv32a : Bytes → ℕ) (n : ℕ) (docs : List (List Bytes)) (s : Network)
    : Type 0 where
  pub finished : IsFinished n s
  pub counted :
      (w : Bytes) (r : ℕ)
      → holds w r s.reducers ≡ (if fnv32a w % n == r then count_in w docs else 0)
  pub hundreds : s.sizes.lt_hundred ≡ u64 (sum_by (size_of (λ v. v.lt_hundred)) s.reducers)
  pub one_ks : s.sizes.lt_one_k ≡ u64 (sum_by (size_of (λ v. v.lt_one_k)) s.reducers)
  pub ten_ks : s.sizes.lt_ten_k ≡ u64 (sum_by (size_of (λ v. v.lt_ten_k)) s.reducers)
  pub hundred_ks : s.sizes.lt_hundred_k ≡ u64 (sum_by (size_of (λ v. v.lt_hundred_k)) s.reducers)

module _ (fnv32a : Bytes → ℕ) (n : ℕ) (docs : List (List Bytes)) where
  -- Nothing is on its way in the end.
  arrived : (w : Bytes) (s : Network) → IsFinished n s → on_its_way w s ≡ 0
  unfolding on_its_way count_in
  arrived w s end = omega (
    arith,
    ap (count_in w) end.no_docs,
    mappers_empty w s.mappers end.no_mapper,
    shufflers_empty w s.shufflers end.no_shuffler,
  )

  finished-IsComplete :
      (s : Network) → Reach fnv32a n 1 docs s → IsFinished n s → IsComplete fnv32a n docs s
  unfolding add_vals
  finished-IsComplete s r end =
      let counts = Reach-IsCounted fnv32a n docs r in
      record {
        finished = end;
        counted = λ w k. ground (arith, counts.all_there w k, arrived w s end);
        hundreds =
            Reach-sums fnv32a n (λ v. v.lt_hundred) (record { none_yet = refl; adds = λ b a. refl })
              r end.no_reducer;
        one_ks =
            Reach-sums fnv32a n (λ v. v.lt_one_k) (record { none_yet = refl; adds = λ b a. refl }) r
              end.no_reducer;
        ten_ks =
            Reach-sums fnv32a n (λ v. v.lt_ten_k) (record { none_yet = refl; adds = λ b a. refl }) r
              end.no_reducer;
        hundred_ks =
            Reach-sums fnv32a n (λ v. v.lt_hundred_k)
              (record { none_yet = refl; adds = λ b a. refl }) r end.no_reducer;
      }

  network-Ends :
      0 < n
      → Ends
          (Step fnv32a n)
          Panics
          (IsComplete fnv32a n docs)
          (Reach fnv32a n 1 docs)
          (steps_left n)
  network-Ends some_ = record {
    keeps = λ s s' step r. later r step;
    less = Step-steps_left fnv32a n;
    safe = λ s r. no_panic (Reach-MapperOrder fnv32a n r) (Reach-ReducerOrder fnv32a n r);
    moves = λ s r.
        elim (progress fnv32a n s some_ (Reach-MapperOrder fnv32a n r)
          (Reach-ShufflerOrder fnv32a n r) (Reach-ReducerOrder fnv32a n r)) [
            | inl move ↦ inl move
            | inr end ↦ inr (finished-IsComplete s r end)
          ];
  }

  -- With one mapper and at least one reducer every run of the calculator, whatever the order of its
  -- steps, comes without a panic and without a deadlock to an end of the mapper, the shufflers, the
  -- reducers and bloomFilterInitializer. There the reducer of a word's hash has the number of times that
  -- the word stands in all documents, and every other zero; and the sizes for the Bloom filters are the
  -- sums of all reducers' sizes, as 64 bits hold them.
  pub start_network-Inevitably :
      0 < n → Inevitably (Step fnv32a n) Panics (IsComplete fnv32a n docs) (start_network 1 n docs)
  start_network-Inevitably some_ =
      Ends-Inevitably (Step fnv32a n) Panics (IsComplete fnv32a n docs) (network-Ends some_) _ start
