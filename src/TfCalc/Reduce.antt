-- ===== src/TfCalc/Reduce.antt =====
-- What the reducers hold: the number of times that each word stands in the documents.
use duck_duck_xor.Base.{ℕ, ◌+◌, ◌%◌, ◌<◌, ◌≡◌, refl, ap, ◌∙◌, inl, inr}
use duck_duck_xor.Base.{false, none, some, List, [], ◌∷◌, ◌++◌, arith}
use duck_duck_xor.Base.{◌==◌, if◌then◌else◌, Bool-cases}
use duck_duck_xor.Base.{Bytes, bytes_eq, bytes_eq_refl, bytes_eq_iff}
use duck_duck_xor.Base.{done, lookup, insert, lookup-insert}
use duck_duck_xor.TfCalc.{
  Frequencies, frequency_of, add_frequency, count_tokens, frequency_worker, shuffle_pairs, shuffler,
  channel, reduce_pairs, reducer,
}

-- How often a word stands in a document, and in all documents.
unfoldable pub count_of : Bytes → List Bytes → ℕ
count_of w [] = 0
count_of w (token ∷ doc) = (if bytes_eq token w then 1 else 0) + count_of w doc

unfoldable pub count_in : Bytes → List (List Bytes) → ℕ
unfolding count_of
count_in w [] = 0
count_in w (doc ∷ docs) = count_of w doc + count_in w docs

-- What all pairs of a word weigh.
unfoldable pub weight : Bytes → Frequencies → ℕ
weight w [] = 0
weight w ((key, n) ∷ m) = (if bytes_eq key w then n else 0) + weight w m

pub nothing : (w : Bytes) → weight w [] ≡ 0
unfolding weight
nothing w = refl

pub frequency_of-add :
    (w key : Bytes) (n : ℕ) (m : Frequencies)
    → frequency_of w (add_frequency key n m) ≡ frequency_of w m + (if bytes_eq key w then n else 0)
unfolding frequency_of add_frequency
frequency_of-add w key n m =
    ap (λ o. elim o [ none ↦ 0 | some n ↦ n ]) (lookup-insert key w (frequency_of key m + n) m)
    ∙ elim (Bool-cases (bytes_eq key w)) [
      | inl same ↦ rw (same, (bytes_eq_iff key w).0 same)
      | inr other ↦ rw other (omega arith)
    ]

pub passed_over :
    (k : Bytes) (v : ℕ) (key : Bytes) (m : Frequencies)
    → bytes_eq k key ≡ false
    → frequency_of key ((k, v) ∷ m) ≡ frequency_of key m
unfolding frequency_of lookup
passed_over k v key m other = rw (frequency_of, lookup, other)

weight-insert :
    (w key : Bytes) (u : ℕ) (m : Frequencies)
    → weight w (insert key u m) + (if bytes_eq key w then frequency_of key m else 0)
      ≡ weight w m + (if bytes_eq key w then u else 0)
unfolding weight frequency_of insert lookup
weight-insert w key u [] = ground arith
weight-insert w key u ((k, v) ∷ m) = elim (Bool-cases (bytes_eq k key)) [
  | inl same ↦ rw (same, (bytes_eq_iff k key).0 same) (ground (arith, bytes_eq_refl key))
  | inr other ↦ rw (passed_over k v key m other, other) (omega (arith, weight-insert w key u m))
]

pub weight-add :
    (w key : Bytes) (n : ℕ) (m : Frequencies)
    → weight w (add_frequency key n m) ≡ weight w m + (if bytes_eq key w then n else 0)
unfolding add_frequency
weight-add w key n m = ground (arith, weight-insert w key (frequency_of key m + n) m)

pub weight-count_tokens :
    (w : Bytes) (doc : List Bytes) (m : Frequencies)
    → weight w (count_tokens doc m) ≡ weight w m + count_of w doc
unfolding count_tokens count_of
weight-count_tokens w [] m = omega arith
weight-count_tokens w (token ∷ doc) m =
    omega (arith, weight-count_tokens w doc (add_frequency token 1 m), weight-add w token 1 m)

frequency_of-reduce_pairs :
    (w : Bytes) (input sub_set : Frequencies)
    → frequency_of w (reduce_pairs input sub_set) ≡ frequency_of w sub_set + weight w input
unfolding reduce_pairs weight
frequency_of-reduce_pairs w [] sub_set = omega arith
frequency_of-reduce_pairs w ((key, n) ∷ input) sub_set = omega (
  arith,
  frequency_of-reduce_pairs w input (add_frequency key n sub_set),
  frequency_of-add w key n sub_set,
)

pub none_yet : (w : Bytes) → frequency_of w [] ≡ 0
unfolding frequency_of lookup
none_yet w = refl

-- What all pairs of a word weigh that go to one reducer.
weight-channel-append :
    (w : Bytes) (r : ℕ) (sent rest : List (ℕ × (Bytes × ℕ)))
    → weight w (channel r (sent ++ rest)) ≡ weight w (channel r sent) + weight w (channel r rest)
unfolding weight channel
weight-channel-append w r [] rest = omega arith
weight-channel-append w r ((h, (key, n)) ∷ sent) rest = elim (Bool-cases (h == r)) [
  | inl same ↦ rw same (omega (arith, weight-channel-append w r sent rest))
  | inr other ↦ rw other (weight-channel-append w r sent rest)
]

module _ (fnv32a : Bytes → ℕ) where
  one-weight :
      (n : ℕ) (w : Bytes) (r : ℕ) (key : Bytes) (v : ℕ) (m : Frequencies)
      (sent : List (ℕ × (Bytes × ℕ)))
      → weight w (channel r sent) ≡ (if fnv32a w % n == r then weight w m else 0)
      → weight w (channel r ((fnv32a key % n, (key, v)) ∷ sent))
        ≡ (if fnv32a w % n == r then weight w ((key, v) ∷ m) else 0)
  unfolding channel weight
  one-weight n w r key v m sent e = elim (Bool-cases (bytes_eq key w)) [
    | inl same ↦ elim (Bool-cases (fnv32a w % n == r)) [
      | inl here ↦ rw ((bytes_eq_iff key w).0 same, here) (ground (arith, bytes_eq_refl w, e, here))
      | inr gone ↦ rw ((bytes_eq_iff key w).0 same, gone) (ground (arith, e, gone))
    ]
    | inr other ↦ elim (Bool-cases (fnv32a key % n == r)) [
      | inl here ↦ rw here (ground (arith, e, other))
      | inr gone ↦ rw gone (ground (arith, e, other))
    ]
  ]

  -- The pairs of one map arrive, and a word's at the reducer of its hash only.
  shuffle_pairs-weight :
      (n : ℕ) (m : Frequencies)
      → 0 < n
      → (sent : List (ℕ × (Bytes × ℕ))) × (shuffle_pairs fnv32a n m ≡ done sent)
        × ((w : Bytes) (r : ℕ)
            → weight w (channel r sent) ≡ (if fnv32a w % n == r then weight w m else 0))
  unfolding shuffle_pairs
  shuffle_pairs-weight n [] h = ([], refl, unfold channel weight in λ w r. ground arith)
  shuffle_pairs-weight n ((key, v) ∷ m) h =
      let (sent, e, weighs) = shuffle_pairs-weight n m h in
      let some_ : (n == 0) ≡ false = ground arith in
      (
        (fnv32a key % n, (key, v)) ∷ sent,
        rw (some_, e),
        λ w r. one-weight n w r key v m sent (weighs w r),
      )

  shuffler-weight :
      (n : ℕ) (docs : List (List Bytes))
      → 0 < n
      → (sent : List (ℕ × (Bytes × ℕ))) × (shuffler fnv32a n (frequency_worker docs) ≡ done sent)
        × ((w : Bytes) (r : ℕ)
            → weight w (channel r sent) ≡ (if fnv32a w % n == r then count_in w docs else 0))
  unfolding shuffler frequency_worker count_in
  shuffler-weight n [] h = ([], refl, unfold channel weight count_in in λ w r. ground arith)
  shuffler-weight n (doc ∷ docs) h =
      let (first, e, weighs) = shuffle_pairs-weight n (count_tokens doc []) h in
      let (rest, e', weighs') = shuffler-weight n docs h in
      (
        first ++ rest,
        rw (e, e'),
        λ w r. ground (
          arith,
          weight-channel-append w r first rest,
          weighs w r,
          weighs' w r,
          weight-count_tokens w doc [],
          nothing w,
        ),
      )

  -- With at least one reducer the shufflers return. The reducer that a word's hash names ends with
  -- the number of times that the word stands in all documents, and every other with zero.
  pub reducer-counts :
      (n : ℕ) (docs : List (List Bytes))
      → 0 < n
      → (sent : List (ℕ × (Bytes × ℕ))) × (shuffler fnv32a n (frequency_worker docs) ≡ done sent)
        × ((w : Bytes) (r : ℕ)
            → frequency_of w (reducer (channel r sent)).0
              ≡ (if fnv32a w % n == r then count_in w docs else 0))
  unfolding reducer
  reducer-counts n docs h =
      let (sent, e, weighs) = shuffler-weight n docs h in
      (
        sent,
        e,
        λ w r.
            omega (arith, frequency_of-reduce_pairs w (channel r sent) [], none_yet w, weighs w r),
      )
