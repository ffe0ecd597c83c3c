-- ===== src/Tests/TfNetwork.antt =====
-- Runs of a calculator with two documents.
use duck_duck_xor.Base.{refl}
use duck_duck_xor.Base.{List, [], ◌∷◌, arith}
use duck_duck_xor.Base.{Inevitably, length}
use duck_duck_xor.Base.{Bytes}
use duck_duck_xor.TfCalc.Network.{
  counting, Network, start_network, Step, count_doc, Reach, start, later, Panics,
}
use duck_duck_xor.TfCalc.Network.Counts.{IsCounted, Reach-IsCounted}
use duck_duck_xor.TfCalc.Network.Ends.{IsComplete, start_network-Inevitably}
use duck_duck_xor.TfCalc.Network.Mappers.{Reach-Panics}
use duck_duck_xor.Tests.Data.{duck, xor}

abbrev docs2 : List (List Bytes)
docs2 = (duck ∷ xor ∷ duck ∷ []) ∷ (duck ∷ []) ∷ []

start_network-Inevitably_example :
    Inevitably (Step length 26) Panics (IsComplete length 26 docs2) (start_network 1 26 docs2)
start_network-Inevitably_example = start_network-Inevitably length 26 docs2 (omega arith)

-- The second of two mappers counts the first document.
abbrev counted_first : (s : Network) × Reach length 26 2 docs2 s
unfolding start_network
counted_first = (
  _,
  later start (
      count_doc (start_network 2 26 docs2) (counting ∷ []) [] (duck ∷ xor ∷ duck ∷ [])
        ((duck ∷ []) ∷ []) refl refl),
)

Reach-IsCounted_example : IsCounted length 26 docs2 counted_first.0
Reach-IsCounted_example = Reach-IsCounted length 26 docs2 counted_first.1

Reach-Panics_example : (s : Network) × Reach length 26 2 docs2 s × Panics s
Reach-Panics_example = Reach-Panics length 25 0 (duck ∷ xor ∷ duck ∷ []) ((duck ∷ []) ∷ [])
