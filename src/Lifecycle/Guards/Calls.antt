-- ===== src/Lifecycle/Guards/Calls.antt =====
-- What any sequence of calls of Start and Stop comes to.
use duck_duck_xor.Base.{ℕ, suc, ◌+◌, ◌-◌, ◌^◌, ◌<◌, ◌≡◌, refl, ap, ◌∙◌, inl, inr}
use duck_duck_xor.Base.{Bool, true, false, List, [], ◌∷◌, arith}
use duck_duck_xor.Base.{ltb, if◌then◌else◌, Bool-cases}
use duck_duck_xor.Base.{length}
use duck_duck_xor.Base.{done, ◌>>=◌}
use duck_duck_xor.Bloom.{close_chan}
use duck_duck_xor.Lifecycle.{
  corpus_reader, doc_preprocessor, bloom_master, key_manager, tf_calc, doc_streamer,
  index_generator,
}
use duck_duck_xor.Lifecycle.Guards.{
  Service, client, document_database, index_searcher, Flags, new_flags, start_flags, stop_once,
  stop_on_started, stop, Call, call_start, call_stop, run_calls,
}

-- The components whose Stop counts on the counter of Start.
abbrev pub shares : Service → Bool
shares (client corpus_reader) = true
shares (client tf_calc) = true
shares part = false

unfoldable pub starts : List Call → ℕ
starts [] = 0
starts (call_start ∷ cs) = suc (starts cs)
starts (call_stop ∷ cs) = starts cs

unfoldable pub stops : List Call → ℕ
stops [] = 0
stops (call_start ∷ cs) = stops cs
stops (call_stop ∷ cs) = suc (stops cs)

-- The first call.
abbrev pub first_is_start : List Call → Bool
first_is_start [] = false
first_is_start (call_start ∷ cs) = true
first_is_start (call_stop ∷ cs) = false

abbrev pub first_is_stop : List Call → Bool
first_is_stop [] = false
first_is_stop (call_start ∷ cs) = false
first_is_stop (call_stop ∷ cs) = true

abbrev pub one_if : Bool → ℕ
one_if b = if b then 1 else 0

stop-once : (part : Service) (f : Flags) → shares part ≡ false → stop part f ≡ stop_once f
unfolding stop
stop-once (client corpus_reader) f h = absurd (ground arith)
stop-once (client doc_preprocessor) f h = refl
stop-once (client bloom_master) f h = refl
stop-once (client key_manager) f h = refl
stop-once (client tf_calc) f h = absurd (ground arith)
stop-once (client doc_streamer) f h = refl
stop-once (client index_generator) f h = refl
stop-once document_database f h = refl
stop-once index_searcher f h = refl

stop-on_started :
    (part : Service) (f : Flags) → shares part ≡ true → stop part f ≡ stop_on_started f
unfolding stop
stop-on_started (client corpus_reader) f h = refl
stop-on_started (client doc_preprocessor) f h = absurd (ground arith)
stop-on_started (client bloom_master) f h = absurd (ground arith)
stop-on_started (client key_manager) f h = absurd (ground arith)
stop-on_started (client tf_calc) f h = refl
stop-on_started (client doc_streamer) f h = absurd (ground arith)
stop-on_started (client index_generator) f h = absurd (ground arith)
stop-on_started document_database f h = absurd (ground arith)
stop-on_started index_searcher f h = absurd (ground arith)

-- With counters of their own: after `a` calls of Start and `b` of Stop.
abbrev separate : ℕ → ℕ → Flags
separate a b = record { started = a; shutdown = b; quit = ltb 0 b; launched = one_if (ltb 0 a) }

start-separate : (a b : ℕ) → a < 2 ^ 32 - 1 → start_flags (separate a b) ≡ separate (suc a) b
unfolding start_flags
start-separate a b h = ground (arith, h)

stop-separate : (a b : ℕ) → b < 2 ^ 32 - 1 → stop_once (separate a b) ≡ done (separate a (suc b))
unfolding stop_once close_chan
stop-separate a b h = ground (arith, h)

run_calls-separate :
    (part : Service) (cs : List Call) (a b : ℕ)
    → shares part ≡ false
    → a + b + length cs < 2 ^ 32
    → run_calls part cs (separate a b) ≡ done (separate (a + starts cs) (b + stops cs))
unfolding run_calls starts stops
run_calls-separate part [] a b own small =
    ap (λ k. done (separate k b)) (omega arith) ∙ ap (λ k. done (separate (a + 0) k)) (omega arith)
run_calls-separate part (call_start ∷ cs) a b own small =
    rw (start-separate a b (omega (arith, small))) (
      run_calls-separate part cs (suc a) b own (omega (arith, small))
      ∙ ap (λ k. done (separate k (b + stops cs))) (omega arith))
run_calls-separate part (call_stop ∷ cs) a b own small =
    rw (stop-once part (separate a b) own, stop-separate a b (omega (arith, small)), ◌>>=◌)
      (run_calls-separate part cs a (suc b) own (omega (arith, small))
        ∙ ap (λ k. done (separate (a + starts cs) k)) (omega arith))

-- On one counter, behind the first call.
abbrev behind : ℕ → ℕ → Bool → Flags
behind a l q = record { started = a; shutdown = 0; quit = q; launched = l }

start-behind :
    (a l : ℕ) (q : Bool) → 0 < a → a < 2 ^ 32 - 1 → start_flags (behind a l q) ≡ behind (suc a) l q
unfolding start_flags
start-behind a l q pos h = ground (arith, pos, h)

stop-behind :
    (a l : ℕ) (q : Bool)
    → 0 < a
    → a < 2 ^ 32 - 1
    → stop_on_started (behind a l q) ≡ done (behind (suc a) l q)
unfolding stop_on_started
stop-behind a l q pos h = ground (arith, pos, h)

run_calls-shared :
    (part : Service) (cs : List Call) (a l : ℕ) (q : Bool)
    → shares part ≡ true
    → 0 < a
    → a + length cs < 2 ^ 32
    → run_calls part cs (behind a l q) ≡ done (behind (a + length cs) l q)
unfolding run_calls
run_calls-shared part [] a l q same pos small = ap (λ k. done (behind k l q)) (omega arith)
run_calls-shared part (call_start ∷ cs) a l q same pos small =
    rw (start-behind a l q pos (omega (arith, small))) (
      run_calls-shared part cs (suc a) l q same (omega arith) (omega (arith, small))
      ∙ ap (λ k. done (behind k l q)) (omega arith))
run_calls-shared part (call_stop ∷ cs) a l q same pos small =
    rw
      (
        stop-on_started part (behind a l q) same,
        stop-behind a l q pos (omega (arith, small)),
        ◌>>=◌,
      )
      (run_calls-shared part cs (suc a) l q same (omega arith) (omega (arith, small))
        ∙ ap (λ k. done (behind k l q)) (omega arith))

-- The first call on one counter decides.
shared-once :
    (part : Service) (cs : List Call)
    → shares part ≡ true
    → length cs < 2 ^ 32
    → (f : Flags) × (run_calls part cs new_flags ≡ done f)
      × (f.launched ≡ one_if (first_is_start cs))
      × (f.quit ≡ first_is_stop cs)
unfolding run_calls start_flags stop_on_started
shared-once part [] same small = (new_flags, refl, refl, refl)
shared-once part (call_start ∷ cs) same small = (
  behind (1 + length cs) 1 false,
  run_calls-shared part cs 1 1 false same (omega arith) (omega (arith, small)),
  refl,
  refl,
)
shared-once part (call_stop ∷ cs) same small = (
  behind (1 + length cs) 0 true,
  rw (stop-on_started part new_flags same)
      (run_calls-shared part cs 1 0 true same (omega arith) (omega (arith, small))),
  refl,
  refl,
)

-- Any sequence of fewer than 2 ^ 32 calls on a component returns: no channel is closed twice. If Stop
-- has a counter of its own then the rest of Start runs once if there is a Start, and quit is closed
-- if there is a Stop. In the corpus reader and the term frequency calculator only the first call
-- counts: after a Start no Stop closes quit.
pub run_calls-once :
    (part : Service) (cs : List Call)
    → length cs < 2 ^ 32
    → (f : Flags) × (run_calls part cs new_flags ≡ done f)
      × (f.launched ≡ one_if (if shares part then first_is_start cs else ltb 0 (starts cs)))
      × (f.quit ≡ (if shares part then first_is_stop cs else ltb 0 (stops cs)))
run_calls-once part cs small = elim (Bool-cases (shares part)) [
  | inl same ↦ (rw same (shared-once part cs same small))
  | inr own ↦
      (rw own (
        separate (0 + starts cs) (0 + stops cs),
        run_calls-separate part cs 0 0 own (omega (arith, small)),
        ap (λ k. one_if (ltb 0 k)) (omega arith),
        ap (ltb 0) (omega arith),
      ))
]
