-- ===== src/EncIndex/XsetWorker/Sends.antt =====
-- How the batches of xSetWorker reach bloomStreamer, in client_proxy/encrypted_index.go: every batch is
-- sent by a goroutine of its own, counted by pendingXSends, and the first worker to end starts a
-- goroutine that closes finishedXtags when the count is zero. The quit channel, which makes the
-- goroutines give up, is left out.
pub mod Order
pub mod Ends
pub mod Workers
use duck_duck_xor.Base.{
  ℕ, ◌+◌, ◌-◌, ◌^◌, ◌≡◌, Bool, true, false, List, [], ◌∷◌, ◌++◌, map, sum_by, Bytes, u32,
}
use mathlib.Core.List.{Perm}

-- xSetWorker, with the batches of the documents that it will still get, or ended.
pub data Worker : Type 0 where
  working : List (List Bytes) → Worker
  worker_done : Worker

-- The goroutine of a batch: before its send, and before it counts down.
pub data Sender : Type 0 where
  sending : List Bytes → Sender
  sent : Sender

-- The goroutine of closeXtagChan: not started, waiting for a count of zero, and done.
pub data Closer : Type 0 where
  not_called : Closer
  spinning : Closer
  closer_done : Closer

-- What the goroutines share: whether the X-Set filter has been made, pendingXSends, an int32 that is
-- compared with zero only, whether finishedXtags is closed; the goroutines; and of bloomStreamer the
-- batches that it has handed on, in order, and whether it has ended.
pub record Sends : Type 0 where
  pub x_set_ready : Bool
  pub pending_x_sends : ℕ
  pub xtags_closed : Bool
  pub workers : List Worker
  pub senders : List Sender
  pub closer : Closer
  pub streamed : List (List Bytes)
  pub streamer_done : Bool

-- NewEncryptedIndexGenerator and Start, with what each worker will get.
unfoldable pub start_sends : List (List (List Bytes)) → Sends
start_sends batches = record {
  x_set_ready = false;
  pending_x_sends = 0;
  xtags_closed = false;
  workers = map working batches;
  senders = [];
  closer = not_called;
  streamed = [];
  streamer_done = false;
}

-- closeOnce.Do: only the first call starts the goroutine.
unfoldable pub call_once : Closer → Closer
call_once not_called = spinning
call_once spinning = spinning
call_once closer_done = closer_done

pub data Step : Sends → Sends → Type 0 where
  -- The bloom master has made the filter.
  make_filter : (s : Sends) → s.x_set_ready ≡ false → Step s (record s { x_set_ready = true })
  -- xSetWorker counts up and starts the goroutine of a batch.
  start_send :
      (s : Sends) (before after : List Worker) (xtags : List Bytes) (more : List (List Bytes))
      → s.workers ≡ before ++ working (xtags ∷ more) ∷ after
      → Step s (record s {
        pending_x_sends = u32 (s.pending_x_sends + 1);
        workers = before ++ working more ∷ after;
        senders = sending xtags ∷ s.senders;
      })
  -- xSetWorker has no more documents.
  end_worker :
      (s : Sends) (before after : List Worker)
      → s.workers ≡ before ++ working [] ∷ after
      → Step s (record s { workers = before ++ worker_done ∷ after; closer = call_once s.closer })
  -- A batch goes to bloomStreamer, and from there to the bloom master; both have waited for the filter.
  send :
      (s : Sends) (left right : List Sender) (xtags : List Bytes)
      → s.senders ≡ left ++ sending xtags ∷ right
      → s.x_set_ready ≡ true
      → s.xtags_closed ≡ false
      → s.streamer_done ≡ false
      → Step s (record s { senders = left ++ sent ∷ right; streamed = s.streamed ++ xtags ∷ [] })
  -- The goroutine of a batch counts down and ends.
  count_down :
      (s : Sends) (left right : List Sender)
      → s.senders ≡ left ++ sent ∷ right
      → Step s (record s {
        pending_x_sends = u32 (s.pending_x_sends + (2 ^ 32 - 1));
        senders = left ++ right;
      })
  -- closeXtagChan reads a count of zero and closes finishedXtags.
  close_xtags :
      (s : Sends)
      → s.closer ≡ spinning
      → s.pending_x_sends ≡ 0
      → Step s (record s { closer = closer_done; xtags_closed = true })
  -- bloomStreamer finds finishedXtags closed.
  end_streamer :
      (s : Sends)
      → s.x_set_ready ≡ true
      → s.xtags_closed ≡ true
      → s.streamer_done ≡ false
      → Step s (record s { streamer_done = true })

-- The states of the runs.
pub data Reach (batches : List (List (List Bytes))) : Sends → Type 0 where
  start : Reach batches (start_sends batches)
  later : {s s' : Sends} → Reach batches s → Step s s' → Reach batches s'

-- A send on the closed channel.
pub data Panics (s : Sends) : Type 0 where
  closed_xtags :
      (left right : List Sender) (xtags : List Bytes)
      → s.senders ≡ left ++ sending xtags ∷ right
      → s.x_set_ready ≡ true
      → s.xtags_closed ≡ true
      → Panics s

-- A worker that has not ended counts as one.
unfoldable pub worker_runs : Worker → ℕ
worker_runs (working more) = 1
worker_runs worker_done = 0

-- bloomStreamer has handed on all batches, in some order, and all goroutines have ended.
pub record AllStreamed (batches : List (List Bytes)) (s : Sends) : Type 0 where
  pub every_batch : Perm s.streamed batches
  pub no_sender : s.senders ≡ []
  pub no_worker : sum_by worker_runs s.workers ≡ 0
  pub no_closer : s.closer ≡ closer_done
  pub no_streamer : s.streamer_done ≡ true
