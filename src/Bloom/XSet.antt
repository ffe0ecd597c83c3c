-- ===== src/Bloom/XSet.antt =====
-- The X-Set: the filter is finished exactly when the announced number of xtags has been added.
use duck_duck_xor.Base.{ℕ, ◌+◌, ◌^◌, ◌<◌, ◌≡◌, refl, ap, ◌∙◌}
use duck_duck_xor.Base.{Bool, true, false, none, some, List, [], ◌∷◌, ◌++◌, map, arith}
use duck_duck_xor.Base.{length}
use duck_duck_xor.Base.{Bytes, u32}
use duck_duck_xor.Base.{done, panic, blocked, >>=-eq-done}
use duck_duck_xor.Bloom.{
  BloomLib, Master, Message, x_set_size_init, x_set_add, close_chan, handle_x_set_init, add_xtags,
  finish_x_set, handle_x_set_add, handle, bloom_worker, add_terms, x_filter_uploader,
}

-- How many xtags the batches hold.
unfoldable pub total : List (List Bytes) → ℕ
total [] = 0
total (xtags ∷ batches) = length xtags + total batches

-- No batch is empty.
abbrev pub NoneEmpty : List (List Bytes) → Type 0
NoneEmpty [] = Unit {0}
NoneEmpty (xtags ∷ batches) = (0 < length xtags) × NoneEmpty batches

module _ (B : BloomLib) where
  open B use {Filter, new_with_estimates, add, test, test-add_self, test-add_kept, gob_encode}

  -- Every one of the strings tests positive.
  abbrev pub AllTest : Filter → List Bytes → Type 0
  AllTest f [] = Unit {0}
  AllTest f (x ∷ xs) = (test f x ≡ true) × AllTest f xs

  abbrev pub AllTestEach : Filter → List (List Bytes) → Type 0
  AllTestEach f [] = Unit {0}
  AllTestEach f (xs ∷ xss) = AllTest f xs × AllTestEach f xss

  pub test-add_terms :
      (f : Filter) (xs : List Bytes) (y : Bytes)
      → test f y ≡ true
      → test (add_terms B f xs) y ≡ true
  unfolding add_terms
  test-add_terms f [] y h = h
  test-add_terms f (x ∷ xs) y h = test-add_terms (add f x) xs y (test-add_kept f x y h)

  pub AllTest-kept :
      (f : Filter) (xs ys : List Bytes) → AllTest f ys → AllTest (add_terms B f xs) ys
  AllTest-kept f xs [] h = tt
  AllTest-kept f xs (y ∷ ys) h = (test-add_terms f xs y h.0, AllTest-kept f xs ys h.1)

  -- A filter has all that was added to it.
  pub AllTest-add_terms : (f : Filter) (xs : List Bytes) → AllTest (add_terms B f xs) xs
  unfolding add_terms
  AllTest-add_terms f [] = tt
  AllTest-add_terms f (x ∷ xs) =
      (test-add_terms (add f x) xs x (test-add_self f x), AllTest-add_terms (add f x) xs)

  -- The bloom master with the X-Set filter made: its size, the filter, the count, and whether the
  -- end has been signalled. The other fields are those of `b`.
  abbrev pub armed : Master Filter → ℕ → Filter → ℕ → Bool → Master Filter
  armed b size f count finished = record b {
    x_set_filter = some f;
    x_final_size = size;
    x_num_added = u32 count;
    x_set_ready = true;
    x_filter_finished = finished;
  }

  unfoldable pub add_batches : Filter → List (List Bytes) → Filter
  add_batches f [] = f
  add_batches f (xtags ∷ batches) = add_batches (add_terms B f xtags) batches

  -- The loop of handleXSetAdd on a filter that is there.
  add_xtags-armed :
      (b : Master Filter) (size : ℕ) (fin : Bool) (xtags : List Bytes) (f : Filter) (n : ℕ)
      → add_xtags B xtags (armed b size f n fin)
        ≡ done (armed b size (add_terms B f xtags) (n + length xtags) fin)
  unfolding add_xtags add_terms
  add_xtags-armed b size fin [] f n = ap (λ k. done (armed b size f k fin)) (omega arith)
  add_xtags-armed b size fin (x ∷ xs) f n =
      ap (λ (k : ℕ). add_xtags B xs (record (armed b size (add f x) n fin) { x_num_added = k }))
        (omega arith)
      ∙ add_xtags-armed b size fin xs (add f x) (n + 1)
      ∙ ap (λ k. done (armed b size (add_terms B (add f x) xs) k fin)) (omega arith)

  -- A batch that leaves the count short of the size only adds.
  pub handle_x_set_add-short :
      (b : Master Filter) (size n : ℕ) (f : Filter) (xtags : List Bytes)
      → size < 2 ^ 32
      → n + length xtags < size
      → handle_x_set_add B xtags (armed b size f n false)
        ≡ done (armed b size (add_terms B f xtags) (n + length xtags) false)
  unfolding handle_x_set_add finish_x_set
  handle_x_set_add-short b size n f xtags small short =
      rw (add_xtags-armed b size false xtags f n) (ground arith)

  -- A batch that reaches the size adds, and signals the end.
  pub handle_x_set_add-reaches :
      (b : Master Filter) (size n : ℕ) (f : Filter) (xtags : List Bytes)
      → n + length xtags ≡ size
      → handle_x_set_add B xtags (armed b size f n false)
        ≡ done (armed b size (add_terms B f xtags) size true)
  unfolding handle_x_set_add finish_x_set close_chan
  handle_x_set_add-reaches b size n f xtags e =
      rw (add_xtags-armed b size false xtags f n, e) (ground arith)

  -- A batch that adds nothing behind the end closes a closed channel.
  handle_x_set_add-again :
      (b : Master Filter) (size : ℕ) (f : Filter)
      → handle_x_set_add B [] (armed b size f size true) ≡ panic
  unfolding handle_x_set_add add_xtags finish_x_set close_chan
  handle_x_set_add-again b size f = ground arith

  batches-finish :
      (b : Master Filter) (size n : ℕ) (f : Filter) (xtags : List Bytes)
      (batches : List (List Bytes))
      → size < 2 ^ 32
      → NoneEmpty batches
      → n + total (xtags ∷ batches) ≡ size
      → bloom_worker B (map x_set_add (xtags ∷ batches)) (armed b size f n false)
        ≡ done (armed b size (add_batches f (xtags ∷ batches)) size true)
  unfolding bloom_worker handle add_batches total
  batches-finish b size n f xtags [] small h e =
      rw (handle_x_set_add-reaches b size n f xtags (omega arith))
  batches-finish b size n f xtags (ys ∷ batches) small h e =
      rw (handle_x_set_add-short b size n f xtags small (omega arith)) (
        batches-finish b size (n + length xtags) (add_terms B f xtags) ys batches small h.1
          (omega arith))

  batches-unfinished :
      (b : Master Filter) (size n : ℕ) (f : Filter) (batches : List (List Bytes))
      → size < 2 ^ 32
      → n + total batches < size
      → bloom_worker B (map x_set_add batches) (armed b size f n false)
        ≡ done (armed b size (add_batches f batches) (n + total batches) false)
  unfolding bloom_worker handle add_batches total
  batches-unfinished b size n f [] small h = ap (λ k. done (armed b size f k false)) (omega arith)
  batches-unfinished b size n f (xtags ∷ batches) small h =
      rw (handle_x_set_add-short b size n f xtags small (omega arith)) (
        batches-unfinished b size (n + length xtags) (add_terms B f xtags) batches small
          (omega arith)
        ∙ ap (λ k. done (armed b size (add_batches (add_terms B f xtags) batches) k false))
            (omega arith))

  add_batches-kept :
      (f : Filter) (batches : List (List Bytes)) (xs : List Bytes)
      → AllTest f xs
      → AllTest (add_batches f batches) xs
  unfolding add_batches
  add_batches-kept f [] xs h = h
  add_batches-kept f (ys ∷ batches) xs h =
      add_batches-kept (add_terms B f ys) batches xs (AllTest-kept f ys xs h)

  pub AllTestEach-add_batches :
      (f : Filter) (batches : List (List Bytes)) → AllTestEach (add_batches f batches) batches
  unfolding add_batches
  AllTestEach-add_batches f [] = tt
  AllTestEach-add_batches f (xs ∷ batches) = (
    add_batches-kept (add_terms B f xs) batches xs (AllTest-add_terms f xs),
    AllTestEach-add_batches (add_terms B f xs) batches,
  )

  handle_x_set_init-armed :
      (b : Master Filter) (size : ℕ)
      → b.x_set_ready ≡ false
      → b.x_filter_finished ≡ false
      → b.x_num_added ≡ 0
      → handle_x_set_init B size b ≡ done (armed b size (new_with_estimates size) 0 false)
  unfolding handle_x_set_init close_chan
  handle_x_set_init-armed b size ready fin zero_added =
      let f = new_with_estimates size in
      rw ready (
        ap (λ k. done (record (armed b size f 0 b.x_filter_finished) { x_num_added = k }))
          zero_added
        ∙ ap (λ k. done (armed b size f 0 k)) fin)

  bloom_worker-append :
      (ms ns : List Message) (b b' : Master Filter)
      → bloom_worker B ms b ≡ done b'
      → bloom_worker B (ms ++ ns) b ≡ bloom_worker B ns b'
  unfolding bloom_worker
  bloom_worker-append [] ns b b' h = ground arith
  bloom_worker-append (m ∷ ms) ns b b' h =
      let (b1, e, h') = >>=-eq-done (handle B m b) (bloom_worker B ms) h in
      rw e (bloom_worker-append ms ns b1 b' h')

  -- With a new bloom master: after the announcement of a size below 2 ^ 32, batches with as many
  -- xtags in all, none of them empty but perhaps the first, end the X-Set. The worker returns with
  -- the end signalled, so the uploader returns with the serialised filter, and the filter has
  -- every xtag of every batch.
  pub bloom_worker-uploads :
      (b : Master Filter) (xtags : List Bytes) (batches : List (List Bytes))
      → b.x_set_ready ≡ false
      → b.x_filter_finished ≡ false
      → b.x_num_added ≡ 0
      → total (xtags ∷ batches) < 2 ^ 32
      → NoneEmpty batches
      → (b' : Master Filter) × (f : Filter) × (bloom_worker B
            (x_set_size_init (total (xtags ∷ batches)) ∷ map x_set_add (xtags ∷ batches))
            b
          ≡ done b')
        × (x_filter_uploader B b' ≡ done (gob_encode f))
        × AllTestEach f (xtags ∷ batches)
  unfolding bloom_worker handle x_filter_uploader
  bloom_worker-uploads b xtags batches ready fin zero_added small h =
      let size = total (xtags ∷ batches) in
      let f = new_with_estimates size in
      (
        armed b size (add_batches f (xtags ∷ batches)) size true,
        add_batches f (xtags ∷ batches),
        rw (handle_x_set_init-armed b size ready fin zero_added)
            (batches-finish b size 0 f xtags batches small h (omega arith)),
        refl,
        AllTestEach-add_batches f (xtags ∷ batches),
      )

  -- With a new bloom master, behind an announced size below 2 ^ 32 and batches with as many xtags,
  -- none of them empty but perhaps the first: one more batch with no xtag, as a document without
  -- words makes it, closes the closed channel, whatever was to come.
  pub bloom_worker-empty_batch :
      (b : Master Filter) (xtags : List Bytes) (batches : List (List Bytes)) (ms : List Message)
      → b.x_set_ready ≡ false
      → b.x_filter_finished ≡ false
      → b.x_num_added ≡ 0
      → total (xtags ∷ batches) < 2 ^ 32
      → NoneEmpty batches
      → bloom_worker B
          ((x_set_size_init (total (xtags ∷ batches)) ∷ map x_set_add (xtags ∷ batches))
            ++ (x_set_add [] ∷ ms))
          b
        ≡ panic
  unfolding bloom_worker handle
  bloom_worker-empty_batch b xtags batches ms ready fin zero_added small h =
      let size = total (xtags ∷ batches) in
      let f = new_with_estimates size in
      bloom_worker-append (x_set_size_init size ∷ map x_set_add (xtags ∷ batches))
        (x_set_add [] ∷ ms) b (armed b size (add_batches f (xtags ∷ batches)) size true)
        (rw (handle_x_set_init-armed b size ready fin zero_added)
          (batches-finish b size 0 f xtags batches small h (omega arith)))
      ∙ (rw (handle_x_set_add-again b size (add_batches f (xtags ∷ batches))))

  -- With a new bloom master and an announced size below 2 ^ 32: while fewer xtags have arrived
  -- than were announced, the end is not signalled, and the uploader waits.
  pub bloom_worker-waits :
      (b : Master Filter) (size : ℕ) (batches : List (List Bytes))
      → b.x_set_ready ≡ false
      → b.x_filter_finished ≡ false
      → b.x_num_added ≡ 0
      → size < 2 ^ 32
      → total batches < size
      → (b' : Master Filter) × (bloom_worker B (x_set_size_init size ∷ map x_set_add batches) b
          ≡ done b')
        × (x_filter_uploader B b' ≡ blocked)
  unfolding bloom_worker handle x_filter_uploader
  bloom_worker-waits b size batches ready fin zero_added small h = (
    armed b size (add_batches (new_with_estimates size) batches) (0 + total batches) false,
    rw (handle_x_set_init-armed b size ready fin zero_added)
        (batches-unfinished b size 0 (new_with_estimates size) batches small (omega arith)),
    refl,
  )

  -- An xtag that arrives before the filter has been made is a nil dereference.
  pub handle_x_set_add-early :
      (x : Bytes) (xs : List Bytes) (b : Master Filter)
      → b.x_set_filter ≡ none
      → handle_x_set_add B (x ∷ xs) b ≡ panic
  unfolding handle_x_set_add add_xtags
  handle_x_set_add-early x xs b h = rw h
