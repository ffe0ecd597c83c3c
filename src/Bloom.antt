-- ===== src/Bloom.antt =====
-- client_proxy/bloom_master.go: the messages of the bloom master and their handlers. The filters of
-- github.com/willf/bloom are a parameter. One worker handles the messages one by one. A channel
-- that serves as a notification is a Boolean: whether it is closed.
pub mod Toy
pub mod XSet
pub mod Workers
pub mod Freq
pub mod Query
pub mod Saver
use duck_duck_xor.Base.{
  ℕ, ◌+◌, ◌%◌, ◌^◌, ◌≡◌, Bool, true, false, Option, none, some, List, [], ◌∷◌, ◌++◌, ◌==◌,
  if◌then◌else◌, length, Bytes, u32, Outcome, done, panic, blocked, ◌>>=◌, deref,
}

-- github.com/willf/bloom, with the false positive rate of the program: a filter has no false
-- negatives, and its serialised form is read back.
pub record BloomLib : Type 1 where
  pub Filter : Type 0
  pub new_with_estimates : ℕ → Filter
  pub add : Filter → Bytes → Filter
  pub test : Filter → Bytes → Bool
  pub gob_encode : Filter → Bytes
  pub gob_decode : Bytes → Option Filter
  pub test-add_self : (f : Filter) (x : Bytes) → test (add f x) x ≡ true
  pub test-add_kept : (f : Filter) (x y : Bytes) → test f y ≡ true → test (add f x) y ≡ true
  pub gob_decode-gob_encode : (f : Filter) → gob_decode (gob_encode f) ≡ some f

-- BloomFrequencyBucket.
pub data FrequencyBucket : Type 0 where
  below_100 below_1000 below_10000 below_100000 bucket_unknown : FrequencyBucket

unfoldable pub bucket_number : FrequencyBucket → ℕ
bucket_number below_100 = 0
bucket_number below_1000 = 1
bucket_number below_10000 = 2
bucket_number below_100000 = 3
bucket_number bucket_unknown = 4

unfoldable pub same_bucket : FrequencyBucket → FrequencyBucket → Bool
unfolding bucket_number
same_bucket a b = bucket_number a == bucket_number b

-- numBuckets.
abbrev pub num_buckets : ℕ
num_buckets = 4

-- `m[k] = v` on a map over the buckets.
unfoldable pub put_bucket {ℓ} :
    {A : Type ℓ} → FrequencyBucket → A → (FrequencyBucket → A) → FrequencyBucket → A
put_bucket k v m j = if same_bucket k j then v else m j

-- The fields of bloomMaster that the handlers use. What is sent over finishedFreqBlooms is kept in
-- order, each filter as it stands when it is sent.
pub record Master (F : Type 0) : Type 0 where
  pub x_set_filter : Option F
  pub x_final_size : ℕ
  pub x_num_added : ℕ
  pub x_set_ready : Bool
  pub freq_buckets_ready : Bool
  pub x_filter_finished : Bool
  pub bloom_freq_buckets : FrequencyBucket → Option F
  pub full_bucket_size : FrequencyBucket → ℕ
  pub current_bucket_size : FrequencyBucket → ℕ
  pub finished_freq_blooms : List (FrequencyBucket × F)

-- The four message types.
pub data Message : Type 0 where
  x_set_size_init : ℕ → Message
  x_set_add : List Bytes → Message
  freq_bucket_init : List (FrequencyBucket × ℕ) → Message
  freq_bucket_add : FrequencyBucket → List Bytes → Message

-- The queue msgChan and the shutdown flag.
pub record Inbox : Type 0 where
  pub shutdown : ℕ
  pub msg_chan : List Message

-- `none` is the error "Request ignored. Shutting Down."
unfoldable pub send_message : Message → Inbox → Option Inbox
send_message m q =
    if q.shutdown == 0 then some (record q { msg_chan = q.msg_chan ++ m ∷ [] }) else none

-- InitXSet.
unfoldable pub init_x_set : ℕ → Inbox → Option Inbox
unfolding send_message
init_x_set num_elements = send_message (x_set_size_init num_elements)

-- QueueXSetAdd.
unfoldable pub queue_x_set_add : List Bytes → Inbox → Option Inbox
unfolding send_message
queue_x_set_add new_xtags = send_message (x_set_add new_xtags)

-- InitFreqBuckets.
unfoldable pub init_freq_buckets : List (FrequencyBucket × ℕ) → Inbox → Option Inbox
unfolding send_message
init_freq_buckets freqs = send_message (freq_bucket_init freqs)

-- QueueFreqBucketAdd.
unfoldable pub queue_freq_bucket_add : FrequencyBucket → List Bytes → Inbox → Option Inbox
unfolding send_message
queue_freq_bucket_add target words = send_message (freq_bucket_add target words)

-- `close` of a channel: a second time it panics.
unfoldable pub close_chan : Bool → Outcome Bool
close_chan true = panic
close_chan false = done true

abbrev pub u64 : ℕ → ℕ
u64 n = n % 2 ^ 64

module _ (B : BloomLib) where
  open B use {Filter, new_with_estimates, add, test, gob_encode}

  -- newBloomMaster.
  unfoldable pub new_bloom_master : Master Filter
  new_bloom_master = record {
    x_set_filter = none;
    x_final_size = 0;
    x_num_added = 0;
    x_set_ready = false;
    freq_buckets_ready = false;
    x_filter_finished = false;
    bloom_freq_buckets = λ b. none;
    full_bucket_size = λ b. 0;
    current_bucket_size = λ b. 0;
    finished_freq_blooms = [];
  }

  -- handleXSetInit.
  unfoldable pub handle_x_set_init : ℕ → Master Filter → Outcome (Master Filter)
  unfolding close_chan
  handle_x_set_init num_elements b = do
    closed ← close_chan b.x_set_ready
    done (record b {
      x_set_filter = some (new_with_estimates num_elements);
      x_final_size = num_elements;
      x_set_ready = closed;
    })

  -- The loop of handleXSetAdd.
  unfoldable pub add_xtags : List Bytes → Master Filter → Outcome (Master Filter)
  add_xtags [] b = done b
  add_xtags (xtag ∷ xtags) b = do
    filter ← deref b.x_set_filter
    add_xtags xtags
        (record b { x_set_filter = some (add filter xtag); x_num_added = u32 (b.x_num_added + 1) })

  -- The test behind it: the count as an int32 against the size cut to an int32.
  unfoldable pub finish_x_set : Master Filter → Outcome (Master Filter)
  unfolding close_chan
  finish_x_set b =
      let finish : Outcome (Master Filter) =
        (close_chan b.x_filter_finished >>= λ closed.
        done (record b { x_filter_finished = closed })) in
      if b.x_num_added == u32 b.x_final_size then finish else done b

  -- handleXSetAdd.
  unfoldable pub handle_x_set_add : List Bytes → Master Filter → Outcome (Master Filter)
  handle_x_set_add xtags b = do b' ← add_xtags xtags b; finish_x_set b'

  -- The loop of handleFreqBucketInit, in the order in which the map is walked.
  unfoldable pub init_buckets : List (FrequencyBucket × ℕ) → Master Filter → Master Filter
  init_buckets [] b = b
  init_buckets ((bucket_range, target_size) ∷ rest) b = init_buckets rest (record b {
    bloom_freq_buckets =
        put_bucket bucket_range (some (new_with_estimates target_size)) b.bloom_freq_buckets;
    full_bucket_size = put_bucket bucket_range target_size b.full_bucket_size;
  })

  -- handleFreqBucketInit.
  unfoldable pub handle_freq_bucket_init :
      List (FrequencyBucket × ℕ) → Master Filter → Outcome (Master Filter)
  unfolding close_chan
  handle_freq_bucket_init frequency_map b = do
    let b' = init_buckets frequency_map b
    closed ← close_chan b'.freq_buckets_ready
    done (record b' { freq_buckets_ready = closed })

  unfoldable pub add_terms : Filter → List Bytes → Filter
  add_terms f [] = f
  add_terms f (term ∷ terms) = add_terms (add f term) terms

  -- The part of handleFreqBucketAdd for a bucket that is there.
  unfoldable pub add_to_bucket :
      FrequencyBucket → Filter → List Bytes → Master Filter → Master Filter
  add_to_bucket target bucket terms b =
      let bucket' = add_terms bucket terms in
      let size = u64 (b.current_bucket_size target + length terms) in
      record b {
        bloom_freq_buckets = put_bucket target (some bucket') b.bloom_freq_buckets;
        current_bucket_size = put_bucket target size b.current_bucket_size;
        finished_freq_blooms =
            b.finished_freq_blooms
            ++ (if b.full_bucket_size target == size then (target, bucket') ∷ [] else []);
      }

  -- handleFreqBucketAdd.
  unfoldable pub handle_freq_bucket_add :
      FrequencyBucket → List Bytes → Master Filter → Outcome (Master Filter)
  handle_freq_bucket_add target terms b = elim (b.bloom_freq_buckets target) [
    | none ↦ done b
    | some bucket ↦ done (add_to_bucket target bucket terms b)
  ]

  -- The dispatch of bloomWorker.
  unfoldable pub handle : Message → Master Filter → Outcome (Master Filter)
  handle (x_set_size_init n) = handle_x_set_init n
  handle (x_set_add xtags) = handle_x_set_add xtags
  handle (freq_bucket_init freqs) = handle_freq_bucket_init freqs
  handle (freq_bucket_add target terms) = handle_freq_bucket_add target terms

  -- bloomWorker over the messages that arrive.
  unfoldable pub bloom_worker : List Message → Master Filter → Outcome (Master Filter)
  bloom_worker [] b = done b
  bloom_worker (m ∷ ms) b = do b' ← handle m b; bloom_worker ms b'

  -- xFilterUploader: it waits for the last xtag, and then sends the serialised filter.
  unfoldable pub x_filter_uploader : Master Filter → Outcome Bytes
  x_filter_uploader b = if b.x_filter_finished then upload else blocked
    where
      upload : Outcome Bytes
      upload = deref b.x_set_filter >>= λ f. done (gob_encode f)

  -- The loop of queryHandler over the map, in the order in which it is walked.
  unfoldable pub query_filters : List FrequencyBucket → Bytes → Master Filter → FrequencyBucket
  query_filters [] query b = bucket_unknown
  query_filters (r ∷ rest) query b = elim (b.bloom_freq_buckets r) [
    | none ↦ query_filters rest query b
    | some filter ↦ elim (test filter query) [ true ↦ r | false ↦ query_filters rest query b ]
  ]
