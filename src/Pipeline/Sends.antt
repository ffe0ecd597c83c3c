-- ===== src/Pipeline/Sends.antt =====
-- The X-Set with its batches sent in any order: xSetWorker and its goroutines, bloomStreamer, and the
-- bloom master.
use duck_duck_xor.Base.{ℕ, ◌+◌, ◌^◌, ◌≤◌, ◌<◌, ◌≡◌, refl, sym, ap, ◌∙◌}
use duck_duck_xor.Base.{true, some, List, [], ◌∷◌, map, arith}
use duck_duck_xor.Base.{if◌then◌else◌, tests}
use duck_duck_xor.Base.{sum_by, sum_by-perm, Inevitably, Inevitably-map, length, replicate}
use duck_duck_xor.Base.{Bytes}
use duck_duck_xor.Base.{done}
use mathlib.Core.List.{Perm}
use duck_duck_xor.Crypto.{Primitives}
use duck_duck_xor.Preprocess.{InvIndexDocument}
use duck_duck_xor.Keys.{KeyMap, key_at, x_ind_key, x_tag_key}
use duck_duck_xor.EncIndex.XsetWorker.{Curve, x_set_worker}
use duck_duck_xor.EncIndex.XsetWorker.Tags.{batches_of, x_set_worker-batches_of}
use duck_duck_xor.EncIndex.XsetWorker.Sends.{Sends, start_sends, Step, Panics, AllStreamed}
use duck_duck_xor.EncIndex.XsetWorker.Sends.Ends.{start_sends-Inevitably}
use duck_duck_xor.Bloom.{
  BloomLib, Master, x_set_size_init, x_set_add, new_bloom_master, bloom_worker, x_filter_uploader,
  Inbox, send_message, init_x_set,
}
use duck_duck_xor.EncIndex.Streams.{chan_splitter, bloom_streamer}
use duck_duck_xor.Pipeline.XSet.{running, chan_splitter_lem, stream_xtags-running}
use duck_duck_xor.Bloom.XSet.{total, NoneEmpty, AllTest, AllTestEach, bloom_worker-uploads}
use duck_duck_xor.Indexer.{count_key_words, total_key_word_summer}
use duck_duck_xor.Indexer.XSet.{AllWorded, count_key_words-total, batches_of-NoneEmpty}

-- An empty batch counts as one.
unfoldable is_empty : List Bytes → ℕ
is_empty [] = 1
is_empty (x ∷ xs) = 0

total_lem : (xss : List (List Bytes)) → total xss ≡ sum_by length xss
unfolding total sum_by
total_lem [] = refl
total_lem (xs ∷ xss) = omega (arith, total_lem xss)

NoneEmpty-sum : (xss : List (List Bytes)) → NoneEmpty xss → sum_by is_empty xss ≡ 0
unfolding sum_by is_empty
NoneEmpty-sum [] h = refl
NoneEmpty-sum ([] ∷ xss) h = absurd (omega (arith, h.0))
NoneEmpty-sum ((x ∷ xs) ∷ xss) h = omega (arith, NoneEmpty-sum xss h.1)

sum-NoneEmpty : (xss : List (List Bytes)) → sum_by is_empty xss ≡ 0 → NoneEmpty xss
unfolding sum_by is_empty
sum-NoneEmpty [] h = tt
sum-NoneEmpty ([] ∷ xss) h = absurd (omega arith)
sum-NoneEmpty ((x ∷ xs) ∷ xss) h = (omega arith, sum-NoneEmpty xss (omega (arith, h)))

-- A permutation of batches has as many xtags.
pub perm-total : {xss yss : List (List Bytes)} → Perm xss yss → total xss ≡ total yss
perm-total {xss} {yss} p = omega (arith, total_lem xss, total_lem yss, sum_by-perm length p)

pub perm-NoneEmpty : {xss yss : List (List Bytes)} → Perm xss yss → NoneEmpty yss → NoneEmpty xss
perm-NoneEmpty {xss} {yss} p h = sum-NoneEmpty xss (sum_by-perm is_empty p ∙ NoneEmpty-sum yss h)

module _ (B : BloomLib) where
  open B use {Filter, test, gob_encode}

  -- How many strings do not test positive.
  unfoldable fails : Filter → List Bytes → ℕ
  fails f [] = 0
  fails f (x ∷ xs) = (if test f x then 0 else 1) + fails f xs

  AllTest-fails : (f : Filter) (xs : List Bytes) → AllTest B f xs → fails f xs ≡ 0
  unfolding fails
  AllTest-fails f [] h = refl
  AllTest-fails f (x ∷ xs) h = ground (arith, h.0, AllTest-fails f xs h.1)

  fails-AllTest : (f : Filter) (xs : List Bytes) → fails f xs ≡ 0 → AllTest B f xs
  unfolding fails
  fails-AllTest f [] h = tt
  fails-AllTest f (x ∷ xs) h = (ground arith, fails-AllTest f xs (omega (arith, h)))

  AllTestEach-sum :
      (f : Filter) (xss : List (List Bytes)) → AllTestEach B f xss → sum_by (fails f) xss ≡ 0
  unfolding sum_by
  AllTestEach-sum f [] h = refl
  AllTestEach-sum f (xs ∷ xss) h = omega (arith, AllTest-fails f xs h.0, AllTestEach-sum f xss h.1)

  sum-AllTestEach :
      (f : Filter) (xss : List (List Bytes)) → sum_by (fails f) xss ≡ 0 → AllTestEach B f xss
  unfolding sum_by
  sum-AllTestEach f [] h = tt
  sum-AllTestEach f (xs ∷ xss) h =
      (fails-AllTest f xs (omega (arith, h)), sum-AllTestEach f xss (omega (arith, h)))

  -- What the bloom master makes of a state of the goroutines: behind the announced size bloomStreamer
  -- has queued the batches in the order in which they have come; the worker returns from all of them,
  -- and what is uploaded is a filter with every xtag of the batches.
  pub record Uploads (size : ℕ) (batches : List (List Bytes)) (s : Sends) : Type 0 where
    pub all_streamed : AllStreamed batches s
    pub master : Master Filter
    pub filter : Filter
    pub queue : Inbox
    pub streams : bloom_streamer true s.streamed (running (x_set_size_init size ∷ [])) ≡ done queue
    pub returns : bloom_worker B queue.msg_chan (new_bloom_master B) ≡ done master
    pub uploads : x_filter_uploader B master ≡ done (gob_encode filter)
    pub every_xtag : AllTestEach B filter batches

  streamed-Uploads :
      (size : ℕ) (batches : List (List Bytes)) (s : Sends)
      → 0 < size
      → size < 2 ^ 32
      → size ≡ total batches
      → NoneEmpty batches
      → AllStreamed batches s
      → Uploads size batches s
  unfolding total new_bloom_master bloom_streamer
  streamed-Uploads size batches s some_ small e worded all =
      let (master, filter, returns, uploads, every_xtag) =
        taken s.streamed (size_of s.streamed all.every_batch)
          (none_empty s.streamed all.every_batch) (every s.streamed all.every_batch) in
      record {
        all_streamed = all;
        queue = running (x_set_size_init size ∷ map x_set_add s.streamed);
        streams = ap done (stream_xtags-running s.streamed (x_set_size_init size ∷ []));
        master = master;
        filter = filter;
        returns = returns;
        uploads = uploads;
        every_xtag = every_xtag;
      }
    where
      size_of : (xss : List (List Bytes)) → Perm xss batches → size ≡ total xss
      size_of xss p = omega (arith, e, perm-total p)

      none_empty : (xss : List (List Bytes)) → Perm xss batches → NoneEmpty xss
      none_empty xss p = perm-NoneEmpty p worded

      every :
          (xss : List (List Bytes))
          → Perm xss batches
          → (f : Filter) → AllTestEach B f xss
          → AllTestEach B f batches
      every xss p f h =
          sum-AllTestEach f batches (sym (sum_by-perm (fails f) p) ∙ AllTestEach-sum f xss h)

      taken :
          (xss : List (List Bytes))
          → size ≡ total xss
          → NoneEmpty xss
          → ((f : Filter) → AllTestEach B f xss → AllTestEach B f batches)
          → (b : Master Filter) × (f : Filter) × (bloom_worker B
                (x_set_size_init size ∷ map x_set_add xss)
                (new_bloom_master B)
              ≡ done b)
            × (x_filter_uploader B b ≡ done (gob_encode f))
            × AllTestEach B f batches
      taken [] same worded kept = absurd (omega (arith, some_, same))
      taken (xs ∷ xss) same worded kept =
          let (b, f, returns, uploads, tests) =
            bloom_worker-uploads B (new_bloom_master B) xs xss refl refl refl
              (omega (arith, small, same)) worded.1 in
          (
            b,
            f,
            ap
                  (λ n.
                    bloom_worker B (x_set_size_init n ∷ map x_set_add (xs ∷ xss))
                      (new_bloom_master B))
                  same
                ∙ returns,
            uploads,
            kept f tests,
          )

NoneEmpty-few : (xss : List (List Bytes)) → NoneEmpty xss → length xss ≤ total xss
unfolding total
NoneEmpty-few [] h = omega arith
NoneEmpty-few (xs ∷ xss) h = omega (arith, h.0, NoneEmpty-few xss h.1)

module _ (c : Primitives) (E : Curve) (B : BloomLib) where
  -- For documents that all have a word, at least one of them and with fewer than 2 ^ 32 words in all,
  -- keys of 32 bytes, one X-Set worker and a new bloom master: chanSplitter gives every document to
  -- xSetWorker, which returns its batches, and totalKeyWordSummer announces their size. In whatever
  -- order the goroutines of the batches run, every run comes without a panic and without a deadlock to
  -- an end of all goroutines, where bloomStreamer has queued every batch behind the size; the bloom
  -- worker returns from the queue, and the uploader sends a filter that has every xtag.
  pub start_sends-Uploads :
      (keys : KeyMap) (d : InvIndexDocument) (ds : List InvIndexDocument)
      → length (key_at keys x_ind_key) ≡ 32
      → length (key_at keys x_tag_key) ≡ 32
      → count_key_words 0 (d ∷ ds) < 2 ^ 32
      → AllWorded (d ∷ ds)
      → (batches : List (List Bytes)) × (x_set_worker c E keys (chan_splitter (d ∷ ds)).0
          ≡ done batches)
        × (total_key_word_summer (d ∷ ds) (running [])
            ≡ some (running (x_set_size_init (count_key_words 0 (d ∷ ds)) ∷ [])))
        × Inevitably Step Panics
            (Uploads B (count_key_words 0 (d ∷ ds)) batches)
            (start_sends (batches ∷ []))
  unfolding batches_of total_key_word_summer init_x_set send_message
  start_sends-Uploads keys d ds m n small worded =
      let batches =
        batches_of c E (key_at keys x_ind_key) (key_at keys x_tag_key) (replicate 4 0) (d ∷ ds) in
      let size = count_key_words 0 (d ∷ ds) in
      let counted : size ≡ total batches = omega (
        arith,
        count_key_words-total c E (key_at keys x_ind_key) (key_at keys x_tag_key) (replicate 4 0) 0
            (d ∷ ds),
      ) in
      let none_empty =
        batches_of-NoneEmpty c E (key_at keys x_ind_key) (key_at keys x_tag_key) (replicate 4 0)
          (d ∷ ds) worded in
      let few = NoneEmpty-few batches none_empty in
      (
        batches,
        ap (λ r. x_set_worker c E keys r.0) (chan_splitter_lem (d ∷ ds))
            ∙ x_set_worker-batches_of c E keys (d ∷ ds) m n,
        refl,
        Inevitably-map Step Panics (AllStreamed batches) (Uploads B size batches)
            (λ s.
              streamed-Uploads B size batches s (omega (arith, few, counted)) small counted
                none_empty)
            _ (start_sends-Inevitably batches (omega (arith, few, counted, small))),
      )
