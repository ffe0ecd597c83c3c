-- ===== src/Tests/Lifecycle.antt =====
-- The goroutines of the client in a short run, and calls of Start and Stop.
use duck_duck_xor.Base.{◌≡◌}
use duck_duck_xor.Base.{true, false, [], ◌∷◌, arith}
use duck_duck_xor.Base.{done}
use duck_duck_xor.Lifecycle.{tf_calc, Process}
use duck_duck_xor.Lifecycle.Index.{index, start}
use duck_duck_xor.Lifecycle.Balance.{IsBalanced}
use duck_duck_xor.Lifecycle.Wait.{Reach, begin, later, starts, Reach-IsBalanced}
use duck_duck_xor.Lifecycle.Guards.{client, Flags, new_flags, call_start, call_stop, run_calls}
use duck_duck_xor.Lifecycle.Guards.Calls.{run_calls-once}

-- The calculator is started again.
abbrev again : Process
again = start true 1 tf_calc (index true 1)

again-Reach : Reach true 1 again
again-Reach = later begin (starts tf_calc (index true 1))

Reach-IsBalanced_example : IsBalanced 1 again
Reach-IsBalanced_example = Reach-IsBalanced again-Reach

run_calls-once_example :
    (f : Flags) × (run_calls (client tf_calc) (call_start ∷ call_stop ∷ call_stop ∷ []) new_flags
      ≡ done f)
    × (f.launched ≡ 1)
    × (f.quit ≡ false)
run_calls-once_example =
    run_calls-once (client tf_calc) (call_start ∷ call_stop ∷ call_stop ∷ []) (omega arith)
