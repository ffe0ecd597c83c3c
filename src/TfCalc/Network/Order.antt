-- ===== src/TfCalc/Network/Order.antt =====
-- The channels of a calculator with one mapper: what is closed, and who can still send on it.
pub mod Steps
use duck_duck_xor.Base.{
  ℕ, ◌+◌, ◌≤◌, ◌<◌, ◌≡◌, refl, inl, inr, Bool, true, false, List, [], ◌∷◌, ◌++◌, arith, ◌==◌,
  if◌then◌else◌, ==_iff, Bool-cases, Nat-cases, sum_by, sum_by-replace, sum_by-member,
  length-replace, length, Bytes,
}
use duck_duck_xor.TfCalc.{add_frequency, count_tokens}
use duck_duck_xor.TfCalc.Network.{
  Mapper, counting, sending_map, mapper_done, Shuffler, waiting, sending_pairs, leaving, checking,
  shuffler_done, Reducer, reducing, sending_sizes, reducer_done, Network, start_network, Step,
  launch_shuffler, launch_reducer, count_doc, close_term_freq, send_map, send_pair, end_map, leave,
  take_token, check_tokens, quit_reducing, send_sizes, close_bloom_size_chan, Reach, start, later,
  mapper_runs, shuffler_runs, reducer_runs,
}

-- A shuffler with a token, one that is behind its loop, one in the loop over a map, and one that has a
-- token to check for.
unfoldable pub has_token : Shuffler → ℕ
has_token waiting = 1
has_token (sending_pairs m) = 1
has_token leaving = 1
has_token checking = 0
has_token shuffler_done = 0

unfoldable pub has_left : Shuffler → ℕ
has_left waiting = 0
has_left (sending_pairs m) = 0
has_left leaving = 1
has_left checking = 1
has_left shuffler_done = 1

unfoldable pub is_sending : Shuffler → ℕ
is_sending waiting = 0
is_sending (sending_pairs m) = 1
is_sending leaving = 0
is_sending checking = 0
is_sending shuffler_done = 0

unfoldable pub is_checking : Shuffler → ℕ
is_checking waiting = 0
is_checking (sending_pairs m) = 0
is_checking leaving = 0
is_checking checking = 1
is_checking shuffler_done = 0

-- A reducer behind its loop.
unfoldable pub has_stopped : Reducer → ℕ
has_stopped (reducing m) = 0
has_stopped (sending_sizes m) = 1
has_stopped (reducer_done m) = 1

sending-has_token : (xs : List Shuffler) → sum_by is_sending xs ≤ sum_by has_token xs
unfolding sum_by is_sending has_token
sending-has_token [] = omega arith
sending-has_token (waiting ∷ xs) = omega (arith, sending-has_token xs)
sending-has_token (sending_pairs m ∷ xs) = omega (arith, sending-has_token xs)
sending-has_token (leaving ∷ xs) = omega (arith, sending-has_token xs)
sending-has_token (checking ∷ xs) = omega (arith, sending-has_token xs)
sending-has_token (shuffler_done ∷ xs) = omega (arith, sending-has_token xs)

pub running-has_token :
    (xs : List Shuffler) → sum_by has_token xs + sum_by is_checking xs ≤ sum_by shuffler_runs xs
unfolding sum_by has_token is_checking shuffler_runs
running-has_token [] = omega arith
running-has_token (waiting ∷ xs) = omega (arith, running-has_token xs)
running-has_token (sending_pairs m ∷ xs) = omega (arith, running-has_token xs)
running-has_token (leaving ∷ xs) = omega (arith, running-has_token xs)
running-has_token (checking ∷ xs) = omega (arith, running-has_token xs)
running-has_token (shuffler_done ∷ xs) = omega (arith, running-has_token xs)

-- With one mapper TermFreq is closed when it has ended, and docIn with it.
pub record MapperOrder (mappers : List Mapper) (closed : Bool) (docs : List (List Bytes))
    : Type 0 where
  pub one_close : closed ≡ false → sum_by mapper_runs mappers ≡ 1
  pub all_mapped : closed ≡ true → (sum_by mapper_runs mappers ≡ 0) × (docs ≡ [])

-- The tokens count the shufflers that have not left, who leave a closed TermFreq only; reducerQuit is
-- closed when none of them can send, and at the latest by the last.
pub record ShufflerOrder (n unlaunched : ℕ) (shufflers : List Shuffler) (tokens : ℕ)
    (closed quit_closed : Bool) : Type 0 where
  pub all_launched : unlaunched + length shufflers ≡ n
  pub all_tokens : tokens ≡ sum_by has_token shufflers
  pub left_late : 0 < sum_by has_left shufflers → closed ≡ true
  pub all_shuffled : quit_closed ≡ true → (closed ≡ true) × (sum_by is_sending shufflers ≡ 0)
  pub quit_in_time :
      quit_closed ≡ false
      → 0 < length shufflers
      → 0 < sum_by has_token shufflers + sum_by is_checking shufflers

-- Reducers stop behind the close of reducerQuit only, and bloomFilterInitializer waits for all.
pub record ReducerOrder (n : ℕ) (reducers : List Reducer) (quit_closed : Bool) (sem : ℕ)
    (bloom_closed : Bool) : Type 0 where
  pub few_reducers : length reducers ≤ n
  pub stopped_late : 0 < sum_by has_stopped reducers → quit_closed ≡ true
  pub awaited : sem + length reducers ≡ n + sum_by reducer_runs reducers
  pub closed_late : bloom_closed ≡ true → sem ≡ 0

abbrev pub MappersOf : Network → Type 0
MappersOf s = MapperOrder s.mappers s.term_freq_closed s.doc_in

abbrev pub ShufflersOf : ℕ → Network → Type 0
ShufflersOf n s =
    ShufflerOrder n s.unlaunched s.shufflers s.shuffler_chan s.term_freq_closed
      s.reducer_quit_closed

abbrev pub ReducersOf : ℕ → Network → Type 0
ReducersOf n s = ReducerOrder n s.reducers s.reducer_quit_closed s.sem s.bloom_size_chan_closed

pub closed_for_good : {b : Bool} → b ≡ true → (if_so : Bool) → (if if_so then true else b) ≡ true
closed_for_good h true = refl
closed_for_good h false = h

-- A shuffler goes from x to y.
pub moved :
    {n unlaunched tokens tokens' : ℕ} {shufflers : List Shuffler} {closed quit : Bool}
    → ShufflerOrder n unlaunched shufflers tokens closed quit
    → (left : List Shuffler) (x y : Shuffler) (right : List Shuffler)
    → shufflers ≡ left ++ x ∷ right
    → tokens' + has_token x ≡ tokens + has_token y
    → (0 < has_left y → closed ≡ true)
    → (quit ≡ true → is_sending y ≤ is_sending x)
    → has_token x + is_checking x ≤ has_token y + is_checking y
    → ShufflerOrder n unlaunched (left ++ y ∷ right) tokens' closed quit
moved {shufflers} {closed} is left x y right e token late send check =
    let same = length-replace left x y right e in
    record {
      all_launched = omega (arith, is.all_launched, same);
      all_tokens = omega (arith, is.all_tokens, token, sum_by-replace has_token left x y right e);
      left_late = λ h. elim (Nat-cases (has_left y)) [
        | inl none_ ↦
            is.left_late (omega (arith, h, none_, sum_by-replace has_left left x y right e))
        | inr some_ ↦ late some_
      ];
      all_shuffled = λ q. (
        (is.all_shuffled q).0,
        omega (arith, (is.all_shuffled q).1, send q, sum_by-replace is_sending left x y right e),
      );
      quit_in_time = λ q some_. omega (
        arith,
        is.quit_in_time q (omega (arith, some_, same)),
        check,
        sum_by-replace has_token left x y right e,
        sum_by-replace is_checking left x y right e,
      );
    }

-- A shuffler that finds no token closes reducerQuit.
pub last_token :
    {n unlaunched tokens : ℕ} {shufflers : List Shuffler} {closed quit : Bool}
    → ShufflerOrder n unlaunched shufflers tokens closed quit
    → (left right : List Shuffler) → shufflers ≡ left ++ checking ∷ right
    → ShufflerOrder n unlaunched
        (left ++ shuffler_done ∷ right)
        tokens
        closed
        (if tokens == 0 then true else quit)
unfolding has_token has_left is_sending is_checking
last_token {tokens} {shufflers} {quit} is left right e =
    let shut = is.left_late (omega (arith, sum_by-member has_left left checking right e)) in
    let token = sum_by-replace has_token left checking shuffler_done right e in
    let send = sum_by-replace is_sending left checking shuffler_done right e in
    record {
      all_launched =
          omega (arith, is.all_launched, length-replace left checking shuffler_done right e);
      all_tokens = omega (arith, is.all_tokens, token);
      left_late = λ h. shut;
      all_shuffled = λ q. (
        shut,
        elim (Bool-cases (tokens == 0)) [
          | inl none_ ↦
              let gone : tokens ≡ 0 = (==_iff tokens 0).0 none_ in
              omega (arith, gone, is.all_tokens, send, sending-has_token shufflers)
          | inr some_ ↦
              let shut_ : quit ≡ true = rw some_ at q in
              omega (arith, (is.all_shuffled shut_).1, send)
        ],
      );
      quit_in_time = λ q some_.
          let left_ : (tokens == 0) ≡ false = ground (arith, q) in
          ground (arith, left_, is.all_tokens, token);
    }

pub last_mapper :
    {mappers : List Mapper} {closed : Bool} {docs : List (List Bytes)}
    → MapperOrder mappers closed docs
    → (before after : List Mapper) → mappers ≡ before ++ counting ∷ after
    → sum_by mapper_runs (before ++ mapper_done ∷ after) ≡ 0
unfolding mapper_runs
last_mapper {closed} is before after e =
    let there = sum_by-member mapper_runs before counting after e in
    let less = sum_by-replace mapper_runs before counting mapper_done after e in
    elim (Bool-cases closed) [
      | inl shut ↦ absurd (omega (arith, there, (is.all_mapped shut).0))
      | inr open_ ↦ omega (arith, less, is.one_close open_)
    ]
