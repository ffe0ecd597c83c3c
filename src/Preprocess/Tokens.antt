-- ===== src/Preprocess/Tokens.antt =====
-- ParseTokens: words hold letters and numbers only, and nothing of the kind is lost.
use duck_duck_xor.Base.{ℕ, ◌≡◌, ◌≢◌}
use duck_duck_xor.Base.{Bool, false, List, [], ◌∷◌, ◌++◌}
use duck_duck_xor.Base.{if◌then◌else◌}
use duck_duck_xor.Base.{Bytes}

-- The words one behind the other.
abbrev pub concat : List Bytes → Bytes
concat [] = []
concat (w ∷ ws) = w ++ concat ws

-- The code points at which the text is not cut, in order.
pub kept : (ℕ → Bool) → Bytes → Bytes
kept f [] = []
kept f (c ∷ rest) = if f c then kept f rest else c ∷ kept f rest

-- A word is not empty and has no code point at which the text is cut.
abbrev pub IsKept : (ℕ → Bool) → Bytes → Type 0
IsKept f [] = Unit {0}
IsKept f (c ∷ cs) = (f c ≡ false) × IsKept f cs

abbrev pub AllWords : (ℕ → Bool) → List Bytes → Type 0
AllWords f [] = Unit {0}
AllWords f (w ∷ ws) = (w ≢ []) × IsKept f w × AllWords f ws

rev_onto : Bytes → Bytes → Bytes
rev_onto [] acc = acc
rev_onto (c ∷ cs) acc = rev_onto cs (c ∷ acc)
