-- ===== src/Tests/Corpus.antt =====
-- A corpus reader on a directory with two files, one of which may be unreadable.
use duck_duck_xor.Base.{
  ℕ, ◌≡◌, refl, Option, none, some, true, false, List, [], ◌∷◌, Bytes, done, Inevitably, bytes_eq,
  if◌then◌else◌,
}
use duck_duck_xor.CorpusReader.{Visit, directory_walker}
use duck_duck_xor.CorpusReader.Network.{Step, Panics, start_walk}
use duck_duck_xor.CorpusReader.Network.Files.{all_readable}
use duck_duck_xor.CorpusReader.Network.Ends.{AllSent, start_walk-AllSent, start_walk-Panics}
use duck_duck_xor.ErrorHandler.{new_error_handler, collect_stop_funcs}
use duck_duck_xor.Tests.Data.{duck, xor}

abbrev tree : List Visit
tree =
    record { path = b'.' ∷ []; info = some true }
    ∷ record { path = b'a' ∷ []; info = some false }
    ∷ record { path = b'b' ∷ []; info = some false }
    ∷ []

abbrev open_all : Bytes → Option Bytes
open_all path = if bytes_eq path (b'a' ∷ []) then some duck else some xor

abbrev open_one : Bytes → Option Bytes
open_one path = if bytes_eq path (b'a' ∷ []) then some duck else none

-- Two stop functions, for which numbers stand, have been collected; a path is the text of its error.
start_walk-AllSent_example :
    (paths : List Bytes) × (directory_walker tree ≡ done paths)
    × Inevitably
        (Step {F = ℕ} open_all (λ path. path))
        Panics
        (AllSent open_all (λ path. path) paths)
        (start_walk (collect_stop_funcs (1 ∷ 2 ∷ []) new_error_handler) tree)
unfolding all_readable bytes_eq
start_walk-AllSent_example = start_walk-AllSent open_all (λ path. path) (1 ∷ 2 ∷ []) tree refl

start_walk-Panics_example :
    Inevitably
      (Step {F = ℕ} open_one (λ path. path))
      (λ s. ⊥)
      Panics
      (start_walk (collect_stop_funcs (1 ∷ 2 ∷ []) new_error_handler) tree)
unfolding all_readable bytes_eq
start_walk-Panics_example = start_walk-Panics open_one (λ path. path) (1 ∷ 2 ∷ []) tree refl
