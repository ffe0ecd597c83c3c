-- ===== src/Tests/BloomWorkers.antt =====
-- Two workers of the bloom master with the xtags of two documents.
use duck_duck_xor.Base.{refl, ◌⊎◌}
use duck_duck_xor.Base.{List, [], ◌∷◌, arith}
use duck_duck_xor.Base.{Inevitably}
use duck_duck_xor.Base.{Bytes}
use duck_duck_xor.Bloom.XSet.{total}
use duck_duck_xor.Bloom.Workers.{Shared, start_workers, Step, Reach, Panics, IsSignalled}
use duck_duck_xor.Bloom.Workers.Ends.{start_workers-Inevitably}
use duck_duck_xor.Bloom.Workers.Race.{Reach-workers_Panics}

abbrev first : List Bytes
first = (1 ∷ []) ∷ (2 ∷ []) ∷ []

abbrev second : List Bytes
second = (3 ∷ []) ∷ []

start_workers-Inevitably_example :
    Inevitably Step
      (λ s. ⊥)
      (λ s. Panics s ⊎ IsSignalled s)
      (start_workers 2 3 (first ∷ second ∷ []))
unfolding total
start_workers-Inevitably_example =
    start_workers-Inevitably 3 (omega arith) 1 (first ∷ second ∷ []) refl (omega arith)

Reach-workers_Panics_example : (s : Shared) × Reach 2 3 (first ∷ second ∷ []) s × Panics s
unfolding total
Reach-workers_Panics_example =
    Reach-workers_Panics 0 3 first second [] (omega arith) refl (omega arith, tt)
