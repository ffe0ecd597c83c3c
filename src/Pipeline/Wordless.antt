-- ===== src/Pipeline/Wordless.antt =====
-- A document without words behind others: its batch of xtags is empty.
use duck_duck_xor.Base.{ℕ, ◌^◌, ◌<◌, ◌≡◌, refl, ap, ◌∙◌}
use duck_duck_xor.Base.{false, List, [], ◌∷◌, ◌++◌, arith}
use duck_duck_xor.Base.{length, replicate}
use duck_duck_xor.Base.{Bytes}
use duck_duck_xor.Base.{done, panic}
use mathlib.Core.Path.{subst}
use mathlib.Core.List.{Perm}
use duck_duck_xor.Crypto.{Primitives}
use duck_duck_xor.Preprocess.{InvIndexDocument}
use duck_duck_xor.Keys.{KeyMap, key_at, x_ind_key, x_tag_key}
use duck_duck_xor.EncIndex.XsetWorker.{Curve, x_set_worker}
use duck_duck_xor.EncIndex.XsetWorker.Tags.{batches_of, document_xtags, x_set_worker-batches_of}
use duck_duck_xor.Bloom.{BloomLib, Master, Message, x_set_add, bloom_worker}
use duck_duck_xor.Bloom.XSet.{total, NoneEmpty, bloom_worker-empty_batch}
use duck_duck_xor.Indexer.{count_key_words}
use duck_duck_xor.Indexer.XSet.{
  AllWorded, messages, count_key_words-total, count_key_words-append, batches_of-append,
  batches_of-NoneEmpty,
}
use duck_duck_xor.Pipeline.Sends.{perm-total, perm-NoneEmpty}

module _ (c : Primitives) (E : Curve) (B : BloomLib) where
  open B use {Filter}

  empty_last-panics :
      (arrived : List (List Bytes)) (size : ℕ) (more : List Message) (b : Master Filter)
      → b.x_set_ready ≡ false
      → b.x_filter_finished ≡ false
      → b.x_num_added ≡ 0
      → size ≡ total arrived
      → 0 < size
      → size < 2 ^ 32
      → NoneEmpty arrived
      → bloom_worker B (messages c E B size arrived ++ (x_set_add [] ∷ more)) b ≡ panic
  unfolding total
  empty_last-panics [] size more b ready fin zero_added e some_ small h = absurd (omega arith)
  empty_last-panics (x ∷ xs) size more b ready fin zero_added e some_ small (k, h) =
      ap (λ n. bloom_worker B (messages c E B n (x ∷ xs) ++ (x_set_add [] ∷ more)) b) e
      ∙ bloom_worker-empty_batch B b x xs more ready fin zero_added
          (subst (λ t. t < 2 ^ 32) e small) h

  -- For documents that all have a word, at least one of them, with fewer than 2 ^ 32 words in all, keys
  -- of 32 bytes and a new bloom master: with one more document without words behind them xSetWorker
  -- makes their batches and an empty one, and whatever the order in which their batches reach the
  -- bloom master, if the empty one comes behind them all, it makes the bloom master close a closed
  -- channel.
  pub x_set-wordless_panics :
      (keys : KeyMap) (d : InvIndexDocument) (ds : List InvIndexDocument) (e : InvIndexDocument)
      (b : Master Filter) (arrived : List (List Bytes)) (more : List Message)
      → length (key_at keys x_ind_key) ≡ 32
      → length (key_at keys x_tag_key) ≡ 32
      → b.x_set_ready ≡ false
      → b.x_filter_finished ≡ false
      → b.x_num_added ≡ 0
      → count_key_words 0 (d ∷ ds) < 2 ^ 32
      → AllWorded (d ∷ ds)
      → e.words ≡ []
      → Perm arrived
          (batches_of c E (key_at keys x_ind_key) (key_at keys x_tag_key) (replicate 4 0) (d ∷ ds))
      → (x_set_worker c E keys ((d ∷ ds) ++ e ∷ [])
          ≡ done (
              batches_of c E
                (key_at keys x_ind_key)
                (key_at keys x_tag_key)
                (replicate 4 0)
                (d ∷ ds)
              ++ [] ∷ []))
        × (bloom_worker B
              (messages c E B (count_key_words 0 ((d ∷ ds) ++ e ∷ [])) arrived
                ++ (x_set_add [] ∷ more))
              b
            ≡ panic)
  unfolding batches_of total
  x_set-wordless_panics keys d ds e b arrived more m n ready fin zero_added small h empty p =
      let k = key_at keys x_ind_key in
      let l = key_at keys x_tag_key in
      let zeros : Bytes = replicate 4 0 in
      let batches = batches_of c E k l zeros (d ∷ ds) in
      let size = count_key_words-total c E k l zeros 0 (d ∷ ds) in
      let same : count_key_words 0 ((d ∷ ds) ++ e ∷ []) ≡ count_key_words 0 (d ∷ ds) =
        omega (arith, count_key_words-append 0 (d ∷ ds) e, ap length empty) in
      let worded = batches_of-NoneEmpty c E k l zeros (d ∷ ds) h in
      let no_xtags : document_xtags c E k l e.doc_id [] [] e.words ≡ [] =
        rw empty (unfold document_xtags in refl) in
      (
        x_set_worker-batches_of c E keys ((d ∷ ds) ++ e ∷ []) m n
            ∙ ap done
                (batches_of-append c E k l zeros d ds e ∙ ap (λ xs. batches ++ xs ∷ []) no_xtags),
        ap (λ t. bloom_worker B (messages c E B t arrived ++ (x_set_add [] ∷ more)) b) same
            ∙ empty_last-panics arrived (count_key_words 0 (d ∷ ds)) more b ready fin zero_added
                (omega (arith, size, perm-total p)) (omega (arith, size, worded.0)) small
                (perm-NoneEmpty p worded),
      )
