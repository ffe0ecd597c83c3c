-- ===== src/Bloom/Query.antt =====
-- Queries for the frequency bucket of a word.
use duck_duck_xor.Base.{◌≡◌, refl, sym, ◌∙◌, ◌≢◌, ◌⊎◌, inl, inr}
use duck_duck_xor.Base.{true, false, some, List, [], ◌∷◌, ◌++◌, arith}
use duck_duck_xor.Base.{Bool-cases, Option-cases}
use duck_duck_xor.Base.{Bytes}
use duck_duck_xor.Bloom.{
  BloomLib, FrequencyBucket, bucket_unknown, Master, query_filters, add_terms,
}
use duck_duck_xor.Bloom.XSet.{test-add_terms}

-- The bucket stands in the order in which the map is walked.
abbrev pub Visited : FrequencyBucket → List FrequencyBucket → Type 0
Visited r [] = ⊥
Visited r (q ∷ order) = (q ≡ r) ⊎ Visited r order

-- No key of the walk is the answer for "in none".
abbrev pub AllKnown : List FrequencyBucket → Type 0
AllKnown [] = Unit {0}
AllKnown (q ∷ order) = (q ≢ bucket_unknown) × AllKnown order

true-false : (true ≡ false) → ⊥
true-false h = ground arith

module _ (B : BloomLib) where
  open B use {Filter, test}

  test-append :
      (before after : List Bytes) (word : Bytes) (f : Filter)
      → test (add_terms B f (before ++ word ∷ after)) word ≡ true
  unfolding add_terms
  test-append [] after word f = test-add_terms B (B.add f word) after word (B.test-add_self f word)
  test-append (x ∷ before) after word f = test-append before after word (B.add f x)

  -- The two ways in which the walk treats a key.
  abbrev Passes : FrequencyBucket → List FrequencyBucket → Bytes → Master Filter → Type 0
  Passes r order query b =
      (query_filters B (r ∷ order) query b ≡ query_filters B order query b)
      × ((f : Filter) → b.bloom_freq_buckets r ≡ some f → test f query ≡ false)

  abbrev Answers : FrequencyBucket → List FrequencyBucket → Bytes → Master Filter → Type 0
  Answers r order query b =
      (query_filters B (r ∷ order) query b ≡ r)
      × ((f : Filter) × (b.bloom_freq_buckets r ≡ some f) × (test f query ≡ true))

  query_cases :
      (r : FrequencyBucket) (order : List FrequencyBucket) (query : Bytes) (b : Master Filter)
      → Passes r order query b ⊎ Answers r order query b
  unfolding query_filters
  query_cases r order query b = elim (Option-cases (b.bloom_freq_buckets r)) [
    | inl e ↦ inl (rw (e, query_filters), λ f e'. absurd (ground arith))
    | inr (f, e) ↦ elim (Bool-cases (test f query)) [
      | inl hit ↦ inr (rw (e, query_filters) (rw hit), (f, e, hit))
      | inr miss ↦ inl (rw (e, query_filters) (rw miss), λ f' e'. ground arith)
    ]
  ]

  -- An answer other than "in none" names a bucket whose filter has the word.
  pub query_filters_sound :
      (order : List FrequencyBucket) (query : Bytes) (b : Master Filter)
      → query_filters B order query b ≢ bucket_unknown
      → (f : Filter) × (b.bloom_freq_buckets (query_filters B order query b) ≡ some f)
        × (test f query ≡ true)
  query_filters_sound [] query b h = absurd (h (unfold query_filters in refl))
  query_filters_sound (r ∷ order) query b h = elim (query_cases r order query b) [
    | inl (e, _) ↦ rw e (query_filters_sound order query b (rw e at h))
    | inr (e, found) ↦ rw e found
  ]

  -- If the keys of the map are the four buckets and the answer is the one for "in none", then no
  -- filter that was visited has the word.
  pub query_filters_complete :
      (order : List FrequencyBucket) (query : Bytes) (b : Master Filter) (r : FrequencyBucket)
      (f : Filter)
      → AllKnown order
      → query_filters B order query b ≡ bucket_unknown
      → Visited r order
      → b.bloom_freq_buckets r ≡ some f
      → test f query ≡ false
  query_filters_complete [] query b r f known h v e = absurd v
  query_filters_complete (q ∷ order) query b r f known h v e = elim (query_cases q order query b) [
    | inl (same, miss) ↦ elim v [
      | inl here ↦ miss f (rw here e)
      | inr later ↦ query_filters_complete order query b r f known.1 (sym same ∙ h) later e
    ]
    | inr (answer, _) ↦ absurd (known.0 (sym answer ∙ h))
  ]

  -- If the keys of the map are the four buckets, a word that was added to the filter of a visited
  -- bucket is not answered by "in none".
  pub query_filters-finds :
      (order : List FrequencyBucket) (b : Master Filter) (r : FrequencyBucket) (f : Filter)
      (before after : List Bytes) (word : Bytes)
      → AllKnown order
      → Visited r order
      → b.bloom_freq_buckets r ≡ some (add_terms B f (before ++ word ∷ after))
      → query_filters B order word b ≢ bucket_unknown
  query_filters-finds order b r f before after word known v e unknown = true-false (
      sym (test-append before after word f)
      ∙ query_filters_complete order word b r _ known unknown v e)

  -- If the keys of the map are the four buckets: an answer other than "in none" names a bucket whose
  -- filter has the word, and the answer "in none" means that no filter that was visited has it.
  pub query_filters-answers :
      (order : List FrequencyBucket) (query : Bytes) (b : Master Filter)
      → AllKnown order
      → (query_filters B order query b ≢ bucket_unknown
          → (f : Filter) × (b.bloom_freq_buckets (query_filters B order query b) ≡ some f)
            × (test f query ≡ true))
        × (query_filters B order query b ≡ bucket_unknown
            → (r : FrequencyBucket) (f : Filter) → Visited r order
            → b.bloom_freq_buckets r ≡ some f
            → test f query ≡ false)
  query_filters-answers order query b known = (
    query_filters_sound order query b,
    λ h r f v e. query_filters_complete order query b r f known h v e,
  )
