-- ===== src/Inverted/Reduce.antt =====
-- The maps of the workers on their way to the reducers.
use duck_duck_xor.Base.{ℕ, ◌%◌, ◌^◌, ◌<◌, ◌≡◌, refl, sym, ap, ◌∙◌, inl, inr}
use duck_duck_xor.Base.{Bool, false, List, [], ◌∷◌, ◌++◌, arith}
use duck_duck_xor.Base.{◌==◌, if◌then◌else◌, Bool-cases}
use duck_duck_xor.Base.{Bytes, bytes_eq, bytes_eq_iff}
use duck_duck_xor.Base.{done, lookup}
use duck_duck_xor.Preprocess.{InvIndexDocument}
use duck_duck_xor.TfCalc.{Frequencies, frequency_of, shuffle_pairs, channel}
use duck_duck_xor.Inverted.{max_int, index_documents, final_index_shuffler, reduce_last}
use duck_duck_xor.Inverted.Last.{last_of, index_documents-last, max_none}
use duck_duck_xor.Inverted.Top.{top, last_of_all, maps_of, max_assoc, top-raise, reduce_last-top}

module _ (fnv32a : Bytes → ℕ) (n : ℕ) (some_ : 0 < n) where
  top-channel-append :
      (w : Bytes) (r : ℕ) (sent rest : List (ℕ × (Bytes × ℕ)))
      → top w (channel r (sent ++ rest)) ≡ max_int (top w (channel r sent)) (top w (channel r rest))
  unfolding channel top
  top-channel-append w r [] rest = unfold max_int in ground arith
  top-channel-append w r ((h, (key, v)) ∷ sent) rest = elim (Bool-cases (h == r)) [
    | inl same ↦ rw same (
        ap (max_int (if bytes_eq key w then v else 0)) (top-channel-append w r sent rest)
        ∙ sym (max_assoc (if bytes_eq key w then v else 0) (top w (channel r sent)) _))
    | inr other ↦ rw other (top-channel-append w r sent rest)
  ]

  -- A pair goes to the reducer of its hash.
  one-top :
      (w : Bytes) (r : ℕ) (key : Bytes) (v : ℕ) (m : Frequencies) (sent : List (ℕ × (Bytes × ℕ)))
      → top w (channel r sent) ≡ (if fnv32a w % n == r then top w m else 0)
      → top w (channel r ((fnv32a key % n, (key, v)) ∷ sent))
        ≡ (if fnv32a w % n == r then top w ((key, v) ∷ m) else 0)
  unfolding channel top max_int
  one-top w r key v m sent e = elim (Bool-cases (bytes_eq key w)) [
    | inl same ↦ elim (Bool-cases (fnv32a w % n == r)) [
      | inl here ↦ rw ((bytes_eq_iff key w).0 same, here) (ground (arith, e, here))
      | inr gone ↦ rw ((bytes_eq_iff key w).0 same, gone) (ground (arith, e, gone))
    ]
    | inr other ↦ elim (Bool-cases (fnv32a key % n == r)) [
      | inl here ↦ rw here (ground (arith, e, other))
      | inr gone ↦ rw gone (ground (arith, e, other))
    ]
  ]

  shuffle_pairs-top :
      (m : Frequencies)
      → (sent : List (ℕ × (Bytes × ℕ))) × (shuffle_pairs fnv32a n m ≡ done sent)
        × ((w : Bytes) (r : ℕ)
            → top w (channel r sent) ≡ (if fnv32a w % n == r then top w m else 0))
  unfolding shuffle_pairs
  shuffle_pairs-top [] = ([], refl, unfold channel top in λ w r. ground arith)
  shuffle_pairs-top ((key, v) ∷ m) =
      let (sent, e, tops) = shuffle_pairs-top m in
      let positive : (n == 0) ≡ false = ground arith in
      (
        (fnv32a key % n, (key, v)) ∷ sent,
        rw (positive, e),
        λ w r. one-top w r key v m sent (tops w r),
      )

  final_index_shuffler-top :
      (docs : List (List InvIndexDocument))
      → (sent : List (ℕ × (Bytes × ℕ))) × (final_index_shuffler fnv32a n (maps_of docs) ≡ done sent)
        × ((w : Bytes) (r : ℕ)
            → top w (channel r sent) ≡ (if fnv32a w % n == r then last_of_all w docs else 0))
  unfolding final_index_shuffler maps_of last_of_all top
  final_index_shuffler-top [] = ([], refl, unfold channel in λ w r. ground arith)
  final_index_shuffler-top (docs ∷ rest) =
      let (first, e, tops) = shuffle_pairs-top (index_documents docs ([], 0)).0 in
      let (sent, e', tops') = final_index_shuffler-top rest in
      (
        first ++ sent,
        rw (e, e'),
        λ w r.
            top-channel-append w r first sent
            ∙ (λ i. max_int (tops w r i) (tops' w r i))
            ∙ both _ _ _ (fnv32a w % n == r)
                ((index_documents-last top top-raise w docs [] 0).0 ∙ max_none (last_of w docs)),
      )
    where
      both :
          (a b c : ℕ) (here : Bool)
          → a ≡ c
          → max_int (if here then a else 0) (if here then b else 0)
            ≡ (if here then max_int c b else 0)
      both a b c here e = unfold max_int in ground (arith, e)

  -- If the maps that the workers make for any documents came to the shufflers, then with at least one
  -- reducer and identifiers of 32 bits the reducer of a word's hash would end with the greatest
  -- identifier of all documents that have the word, every other reducer with zero.
  pub shuffled-last :
      (docs : List (List InvIndexDocument))
      → ((w : Bytes) → last_of_all w docs < 2 ^ 32)
      → (sent : List (ℕ × (Bytes × ℕ))) × (final_index_shuffler fnv32a n (maps_of docs) ≡ done sent)
        × ((w : Bytes) (r : ℕ)
            → frequency_of w (reduce_last (channel r sent) ([], 0)).0
              ≡ (if fnv32a w % n == r then last_of_all w docs else 0))
  unfolding frequency_of lookup
  shuffled-last docs few =
      let (sent, e, tops) = final_index_shuffler-top docs in
      (
        sent,
        e,
        λ w r.
            reduce_last-top (channel r sent) [] 0 (λ v. ground (arith, tops v r, few v))
              (λ v. omega arith) w
            ∙ max_none (top w (channel r sent))
            ∙ tops w r,
      )
