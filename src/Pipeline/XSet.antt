-- ===== src/Pipeline/XSet.antt =====
-- The X-Set: chanSplitter, totalKeyWordSummer, xSetWorker and bloomStreamer, and the bloom master.
use duck_duck_xor.Base.{ℕ, ◌^◌, ◌<◌, ◌≡◌, refl, sym, ap, ◌∙◌}
use duck_duck_xor.Base.{true, false, some, List, [], ◌∷◌, ◌++◌, map, append_assoc, append-nil}
use duck_duck_xor.Base.{length}
use duck_duck_xor.Base.{Bytes}
use duck_duck_xor.Base.{done, ◌>>=◌}
use duck_duck_xor.Crypto.{Primitives}
use duck_duck_xor.Preprocess.{InvIndexDocument}
use duck_duck_xor.Keys.{KeyMap, key_at, x_ind_key, x_tag_key}
use duck_duck_xor.EncIndex.XsetWorker.{Curve, x_set_worker}
use duck_duck_xor.EncIndex.Streams.{chan_splitter, stream_xtags, bloom_streamer}
use duck_duck_xor.Bloom.{
  BloomLib, Master, Message, x_set_size_init, x_set_add, Inbox, send_message, init_x_set,
  queue_x_set_add, close_chan, handle_x_set_init, handle, new_bloom_master, bloom_worker,
  x_filter_uploader,
}
use duck_duck_xor.Bloom.XSet.{AllTestEach}
use duck_duck_xor.Indexer.{count_key_words, total_key_word_summer}
use duck_duck_xor.Indexer.XSet.{AllWorded, x_set-uploads}

abbrev pub running : List Message → Inbox
running ms = record { shutdown = 0; msg_chan = ms }

-- chanSplitter gives every document to both.
pub chan_splitter_lem : (ds : List InvIndexDocument) → chan_splitter ds ≡ (ds, ds)
unfolding chan_splitter
chan_splitter_lem [] = refl
chan_splitter_lem (d ∷ ds) = ap (λ r. (d ∷ r.0, d ∷ r.1)) (chan_splitter_lem ds)

-- A bloom master that does not shut down gets every batch.
pub stream_xtags-running :
    (batches : List (List Bytes)) (ms : List Message)
    → stream_xtags batches (running ms) ≡ running (ms ++ map x_set_add batches)
unfolding stream_xtags queue_x_set_add send_message
stream_xtags-running [] ms = ap running (sym (append-nil ms))
stream_xtags-running (xtags ∷ batches) ms =
    stream_xtags-running batches (ms ++ x_set_add xtags ∷ [])
    ∙ ap running (append_assoc ms (x_set_add xtags ∷ []) (map x_set_add batches))

module _ (c : Primitives) (E : Curve) (B : BloomLib) where
  open B use {Filter, gob_encode}

  -- The message of totalKeyWordSummer, and what a worker that returns has done behind it.
  worker_split :
      (size : ℕ) (ms : List Message) (b b' : Master Filter)
      → b.x_set_ready ≡ false
      → bloom_worker B (x_set_size_init size ∷ ms) b ≡ done b'
      → (b1 : Master Filter) × (bloom_worker B (x_set_size_init size ∷ []) b ≡ done b1)
        × (b1.x_set_ready ≡ true)
        × (bloom_worker B ms b1 ≡ done b')
  unfolding bloom_worker handle handle_x_set_init close_chan
  worker_split size ms b b' fresh e =
      let b1 : Master Filter = record b {
        x_set_filter = some (B.new_with_estimates size);
        x_final_size = size;
        x_set_ready = true;
      } in
      let returned : handle_x_set_init B size b ≡ done b1 =
        rw (handle_x_set_init, fresh, close_chan) in
      (
        b1,
        ap (λ m. m >>= λ b2. done b2) returned,
        refl,
        ap (λ m. m >>= bloom_worker B ms) (sym returned) ∙ e,
      )

  -- For documents of which all but perhaps the first have a word, with fewer than 2 ^ 32 words in
  -- all, keys of 32 bytes, a new bloom master and an empty queue: chanSplitter gives every document to
  -- the X-Set worker, which returns its batches; totalKeyWordSummer queues one message, and a bloom
  -- worker that handles it makes the filter, for which bloomStreamer waits; the messages that the
  -- streamer then queues take the bloom master to its end, where the uploader sends a filter that has
  -- every xtag.
  pub bloom_streamer-uploads :
      (keys : KeyMap) (d : InvIndexDocument) (ds : List InvIndexDocument)
      → length (key_at keys x_ind_key) ≡ 32
      → length (key_at keys x_tag_key) ≡ 32
      → count_key_words 0 (d ∷ ds) < 2 ^ 32
      → AllWorded ds
      → (batches : List (List Bytes)) × (q1 : Inbox) × (b1 : Master Filter) × (q2 : Inbox)
        × (b2 : Master Filter) × (f : Filter) × (x_set_worker c E keys (chan_splitter (d ∷ ds)).0
            ≡ done batches)
        × (total_key_word_summer (d ∷ ds) (running []) ≡ some q1)
        × (bloom_worker B q1.msg_chan (new_bloom_master B) ≡ done b1)
        × (bloom_streamer b1.x_set_ready batches (record q1 { msg_chan = [] }) ≡ done q2)
        × (bloom_worker B q2.msg_chan b1 ≡ done b2)
        × (x_filter_uploader B b2 ≡ done (gob_encode f))
        × AllTestEach B f batches
  unfolding bloom_streamer new_bloom_master
  bloom_streamer-uploads keys d ds m n small worded =
      let (batches, b2, f, made, ran, uploads, all) =
        x_set-uploads c E B keys d ds (new_bloom_master B) m n refl refl refl small worded in
      let size = count_key_words 0 (d ∷ ds) in
      let (b1, first, ready, later) =
        worker_split size (map x_set_add batches) (new_bloom_master B) b2 refl ran in
      (
        batches,
        running (x_set_size_init size ∷ []),
        b1,
        running (map x_set_add batches),
        b2,
        f,
        rw (chan_splitter_lem (d ∷ ds)) made,
        unfold total_key_word_summer init_x_set send_message in refl,
        first,
        rw (bloom_streamer, ready, stream_xtags-running batches []),
        later,
        uploads,
        all,
      )
