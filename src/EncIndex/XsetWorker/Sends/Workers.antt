-- ===== src/EncIndex/XsetWorker/Sends/Workers.antt =====
-- With several X-Set workers the first that ends closes finishedXtags under the others.
use duck_duck_xor.Base.{◌≡◌}
use duck_duck_xor.Base.{true, false, List, [], ◌∷◌}
use duck_duck_xor.Base.{Bytes}
use duck_duck_xor.EncIndex.XsetWorker.Sends.{Worker, working, not_called, Sends, Reach}

-- A state of a run in which the first worker is on its own and no batch is under way.
record Alone (all : List (List (List Bytes))) (more : List (List Bytes)) (others : List Worker)
    (s : Sends) : Type 0 where
  reached : Reach all s
  ready : s.x_set_ready ≡ true
  none_pending : s.pending_x_sends ≡ 0
  open_ : s.xtags_closed ≡ false
  of_workers : s.workers ≡ working more ∷ others
  of_senders : s.senders ≡ []
  of_closer : s.closer ≡ not_called
  goes_on : s.streamer_done ≡ false
