-- ===== src/Inverted/Top.antt =====
-- The greatest value of a word among pairs, in the workers' maps and in the reducers'.
use duck_duck_xor.Base.{ℕ, ◌+◌, ◌^◌, ◌≤◌, ◌<◌, ◌≡◌, refl, ap, ◌∙◌, inl, inr}
use duck_duck_xor.Base.{true, List, [], ◌∷◌, arith}
use duck_duck_xor.Base.{◌==◌, if◌then◌else◌, Bool-cases}
use duck_duck_xor.Base.{Bytes, u32, bytes_eq, bytes_eq_refl, bytes_eq_iff}
use duck_duck_xor.Base.{lookup, insert}
use duck_duck_xor.Preprocess.{InvIndexDocument}
use duck_duck_xor.TfCalc.{Frequencies, frequency_of}
use duck_duck_xor.TfCalc.Reduce.{passed_over}
use duck_duck_xor.Inverted.{max_int, index_documents, reduce_last}
use duck_duck_xor.Inverted.Last.{last_of, frequency_of-raise, swap_max}

-- The greatest value of a word among pairs.
unfoldable pub top : Bytes → Frequencies → ℕ
unfolding max_int
top w [] = 0
top w ((key, n) ∷ m) = max_int (if bytes_eq key w then n else 0) (top w m)

-- The documents of several workers, and the maps that they make of them.
unfoldable pub last_of_all : Bytes → List (List InvIndexDocument) → ℕ
unfolding last_of max_int
last_of_all w [] = 0
last_of_all w (docs ∷ rest) = max_int (last_of w docs) (last_of_all w rest)

unfoldable pub maps_of : List (List InvIndexDocument) → List Frequencies
unfolding index_documents
maps_of [] = []
maps_of (docs ∷ rest) = (index_documents docs ([], 0)).0 ∷ maps_of rest

pub frequency_of-top : (w : Bytes) (m : Frequencies) → frequency_of w m ≤ top w m
unfolding frequency_of lookup top max_int
frequency_of-top w [] = omega arith
frequency_of-top w ((key, n) ∷ m) = ground (arith, frequency_of-top w m)

pub found :
    (k : Bytes) (v : ℕ) (key : Bytes) (m : Frequencies)
    → bytes_eq k key ≡ true
    → frequency_of key ((k, v) ∷ m) ≡ v
unfolding frequency_of lookup
found k v key m same = rw (frequency_of, lookup, same)

pub exchange : (a b c : ℕ) → max_int a (max_int b c) ≡ max_int b (max_int a c)
unfolding max_int
exchange a b c = ground arith

pub max_assoc : (a b c : ℕ) → max_int (max_int a b) c ≡ max_int a (max_int b c)
unfolding max_int
max_assoc a b c = ground arith

pub raised : (f v : ℕ) → f ≤ max_int f v
unfolding max_int
raised f v = ground arith

pub known : (f v t : ℕ) → f ≤ t → max_int (max_int f v) t ≡ max_int v t
unfolding max_int
known f v t h = ground arith

pub top-insert :
    (w key : Bytes) (u : ℕ) (m : Frequencies)
    → frequency_of key m ≤ u
    → top w (insert key u m) ≡ max_int (if bytes_eq key w then u else 0) (top w m)
unfolding top insert frequency_of lookup max_int
top-insert w key u [] h = refl
top-insert w key u ((k, v) ∷ m) h = elim (Bool-cases (bytes_eq k key)) [
  | inl same ↦
      let below : v ≤ u = omega (arith, h, found k v key m same) in
      rw (same, (bytes_eq_iff k key).0 same) (ground (arith, below))
  | inr other ↦
      let below : frequency_of key m ≤ u = omega (arith, h, passed_over k v key m other) in
      rw other (
        ap (max_int (if bytes_eq k w then v else 0)) (top-insert w key u m below)
        ∙ exchange (if bytes_eq k w then v else 0) (if bytes_eq key w then u else 0) (top w m))
]

pub top-raise :
    (w key : Bytes) (v : ℕ) (m : Frequencies)
    → top w (insert key (max_int (frequency_of key m) v) m)
      ≡ max_int (if bytes_eq key w then v else 0) (top w m)
top-raise w key v m =
    top-insert w key (max_int (frequency_of key m) v) m (raised (frequency_of key m) v)
    ∙ elim (Bool-cases (bytes_eq key w)) [
      | inl same ↦
          rw (same, (bytes_eq_iff key w).0 same)
            (known (frequency_of w m) v (top w m) (frequency_of-top w m))
      | inr other ↦ rw other
    ]

-- The reducer of the pairs takes the greatest value of every word.
pub reduce_last-top :
    (input : Frequencies) (m : Frequencies) (count : ℕ)
    → ((w : Bytes) → top w input < 2 ^ 32)
    → ((w : Bytes) → frequency_of w m < 2 ^ 32)
    → (w : Bytes)
    → frequency_of w (reduce_last input (m, count)).0 ≡ max_int (top w input) (frequency_of w m)
unfolding reduce_last top
reduce_last-top [] m count few small w = unfold max_int in ground arith
reduce_last-top ((key, tf) ∷ input) m count few small w =
    let raised_ : max_int (u32 (frequency_of key m)) (u32 tf) ≡ max_int (frequency_of key m) tf =
      λ i. max_int (fits (frequency_of key m) (small key) i) (fits tf head i) in
    let m' = insert key (max_int (frequency_of key m) tf) m in
    ap
      (λ v.
        frequency_of w
          (reduce_last input
            (insert key v m, if frequency_of key m == 0 then count + 1 else count)).0)
      raised_
    ∙ reduce_last-top input m' _ tail small' w
    ∙ ap (max_int (top w input)) (frequency_of-raise w key tf m)
    ∙ swap_max (top w input) (if bytes_eq key w then tf else 0) (frequency_of w m)
  where
    fits : (v : ℕ) → v < 2 ^ 32 → u32 v ≡ v
    fits v h = omega (arith, h)

    head : tf < 2 ^ 32
    head = unfold max_int in ground (arith, few key, bytes_eq_refl key)

    tail : (w : Bytes) → top w input < 2 ^ 32
    tail w = unfold max_int in ground (arith, few w)

    small' : (w : Bytes) → frequency_of w (insert key (max_int (frequency_of key m) tf) m) < 2 ^ 32
    small' w = unfold max_int in ground (arith, frequency_of-raise w key tf m, small w, head)
