-- ===== src/Bloom/Workers.antt =====
-- Several goroutines of bloomWorker in client_proxy/bloom_master.go that handle the messages of the X-Set
-- at the same time: handleXSetAdd over the atomic count and the channel xFilterFinished. What the filter
-- holds is left out, since its library does not promise that Add can be called from several goroutines; so is quit.
pub mod Order
pub mod Ends
pub mod Race
use duck_duck_xor.Base.{
  ℕ, ◌+◌, ◌≡◌, Bool, true, false, List, [], ◌∷◌, ◌++◌, ◌==◌, sum_by, replicate, Bytes, u32,
}

-- A worker: at its select, in the loop over the xtags of a message with those that are left, and at the
-- close of xFilterFinished.
pub data Worker : Type 0 where
  selecting : Worker
  adding : List Bytes → Worker
  closing : Worker

-- The messages that msgChan still brings, the count and the announced size, whether xFilterFinished is
-- closed, and the workers.
pub record Shared : Type 0 where
  pub msg_chan : List (List Bytes)
  pub x_num_added : ℕ
  pub x_final_size : ℕ
  pub x_filter_finished : Bool
  pub workers : List Worker

-- Behind handleXSetInit.
unfoldable pub start_workers : (num_workers size : ℕ) → List (List Bytes) → Shared
start_workers num_workers size batches = record {
  msg_chan = batches;
  x_num_added = 0;
  x_final_size = size;
  x_filter_finished = false;
  workers = replicate num_workers selecting;
}

pub data Step : Shared → Shared → Type 0 where
  -- A worker takes a message.
  take_message :
      (s : Shared) (before after : List Worker) (xtags : List Bytes) (more : List (List Bytes))
      → s.workers ≡ before ++ selecting ∷ after
      → s.msg_chan ≡ xtags ∷ more
      → Step s (record s { msg_chan = more; workers = before ++ adding xtags ∷ after })
  -- One xtag.
  add_one :
      (s : Shared) (before after : List Worker) (xtag : Bytes) (xtags : List Bytes)
      → s.workers ≡ before ++ adding (xtag ∷ xtags) ∷ after
      → Step s (record s {
        x_num_added = u32 (s.x_num_added + 1);
        workers = before ++ adding xtags ∷ after;
      })
  -- Behind the loop the count is loaded and compared.
  more_to_come :
      (s : Shared) (before after : List Worker)
      → s.workers ≡ before ++ adding [] ∷ after
      → (s.x_num_added == u32 s.x_final_size) ≡ false
      → Step s (record s { workers = before ++ selecting ∷ after })
  final_element :
      (s : Shared) (before after : List Worker)
      → s.workers ≡ before ++ adding [] ∷ after
      → (s.x_num_added == u32 s.x_final_size) ≡ true
      → Step s (record s { workers = before ++ closing ∷ after })
  close_finished :
      (s : Shared) (before after : List Worker)
      → s.workers ≡ before ++ closing ∷ after
      → s.x_filter_finished ≡ false
      → Step s (record s { x_filter_finished = true; workers = before ++ selecting ∷ after })

pub data Reach (num_workers size : ℕ) (batches : List (List Bytes)) : Shared → Type 0 where
  start : Reach num_workers size batches (start_workers num_workers size batches)
  later :
      {s s' : Shared}
      → Reach num_workers size batches s
      → Step s s'
      → Reach num_workers size batches s'

-- The close of a closed channel.
pub data Panics (s : Shared) : Type 0 where
  closed_twice :
      (before after : List Worker)
      → s.workers ≡ before ++ closing ∷ after
      → s.x_filter_finished ≡ true
      → Panics s

-- A worker with a message counts as one.
unfoldable pub is_busy : Worker → ℕ
is_busy selecting = 0
is_busy (adding xtags) = 1
is_busy closing = 1

-- All messages are handled, and the end is signalled.
pub record IsSignalled (s : Shared) : Type 0 where
  pub no_message : s.msg_chan ≡ []
  pub no_worker_busy : sum_by is_busy s.workers ≡ 0
  pub all_added : s.x_num_added ≡ u32 s.x_final_size
  pub signalled : s.x_filter_finished ≡ true
