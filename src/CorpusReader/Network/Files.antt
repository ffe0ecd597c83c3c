-- ===== src/CorpusReader/Network/Files.antt =====
-- The files among the visits of a walk, and the paths that DirectoryWalker still sends.
use duck_duck_xor.Base.{◌≡◌, refl, inl, inr}
use duck_duck_xor.Base.{Bool, true, false, ◌&&◌, ◌||◌, Option, none, some, List, [], ◌∷◌, arith}
use duck_duck_xor.Base.{if◌then◌else◌, Option-cases}
use duck_duck_xor.Base.{Bytes}
use duck_duck_xor.Base.{done}
use duck_duck_xor.CorpusReader.{Visit, directory_walker}
use duck_duck_xor.CorpusReader.Network.{
  Walker, walking, sending_path, closing_paths, ending_walk, walker_done, paths_closed,
}

-- The files among the visits.
unfoldable pub files : List Visit → List Bytes
files [] = []
files (v ∷ vs) =
    let rest = files vs in
    elim v.info [ none ↦ rest | some is_dir ↦ if is_dir then rest else v.path ∷ rest ]

-- What DirectoryWalker still sends.
unfoldable pub ahead : Walker → List Visit → List Bytes
ahead walking vs = files vs
ahead (sending_path p) vs = p ∷ files vs
ahead closing_paths vs = []
ahead ending_walk vs = []
ahead walker_done vs = []

pub closed-ahead : (x : Walker) (vs : List Visit) → paths_closed x ≡ true → ahead x vs ≡ []
unfolding paths_closed ahead
closed-ahead walking vs h = absurd (ground arith)
closed-ahead (sending_path p) vs h = absurd (ground arith)
closed-ahead closing_paths vs h = refl
closed-ahead ending_walk vs h = refl
closed-ahead walker_done vs h = refl

module _ (open_file : Bytes → Option Bytes) where
  unfoldable pub opens : Bytes → Bool
  opens path = elim (open_file path) [ none ↦ false | some content ↦ true ]

  -- Walk finds every path, and os.Open opens the files.
  unfoldable pub all_readable : List Visit → Bool
  unfolding opens
  all_readable [] = true
  all_readable (v ∷ vs) =
      (elim v.info [ none ↦ false | some is_dir ↦ is_dir || opens v.path ]) && all_readable vs

  pub directory_walker-files :
      (vs : List Visit) → all_readable vs ≡ true → directory_walker vs ≡ done (files vs)
  unfolding directory_walker files all_readable
  directory_walker-files [] h = refl
  directory_walker-files (v ∷ vs) h = elim (Option-cases v.info) [
    | inl e ↦ absurd (ground (arith, e, h))
    | inr (true, e) ↦ rw (e, directory_walker-files vs (ground (arith, e, h)))
    | inr (false, e) ↦ rw (e, directory_walker-files vs (ground (arith, e, h)))
  ]
