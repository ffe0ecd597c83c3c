-- ===== src/TfCalc/Network/Mappers.antt =====
-- A calculator with several mappers: the first that ends closes TermFreq under the others.
use duck_duck_xor.Base.{ℕ, zero, suc, ◌+◌, ◌%◌, ◌<◌, ◌≡◌, refl, ap}
use duck_duck_xor.Base.{false, List, [], ◌∷◌, ◌++◌, arith}
use duck_duck_xor.Base.{
  sum_by, sum_by-replace, sum_by-member, sum_by-append, length-replace, split_at, length, replicate,
  length-append,
}
use duck_duck_xor.Base.{Bytes}
use native.Mathlib.Nat.{mod-lt}
use duck_duck_xor.TfCalc.{Frequencies, add_frequency, count_tokens}
use duck_duck_xor.TfCalc.Network.{
  Mapper, counting, sending_map, mapper_done, Shuffler, waiting, sending_pairs, Reducer, reducing,
  sending_sizes, reducer_done, Network, start_network, launch_shuffler, launch_reducer, count_doc,
  close_term_freq, send_map, send_pair, end_map, Reach, start, later, Panics, closed_term_freq,
}
use duck_duck_xor.TfCalc.Network.Order.{has_stopped}

module _ (fnv32a : Bytes → ℕ) (n workers : ℕ) (docs : List (List Bytes)) where
  -- A state of a run in which all reducers are at their select.
  record Ready (mappers : List Mapper) (unlaunched : ℕ) (shufflers : List Shuffler) (reducers : ℕ)
      (more : List (List Bytes)) (s : Network) : Type 0 where
    reached : Reach fnv32a n workers docs s
    of_mappers : s.mappers ≡ mappers
    of_unlaunched : s.unlaunched ≡ unlaunched
    of_shufflers : s.shufflers ≡ shufflers
    of_reducers : length s.reducers ≡ reducers
    of_docs : s.doc_in ≡ more
    open_ : s.term_freq_closed ≡ false
    none_stopped : sum_by has_stopped s.reducers ≡ 0

  -- One more shuffler waits.
  launched :
      {k : ℕ} {ms : List Mapper} {xs : List Shuffler} {s : Network}
      → (is : Ready ms (suc k) xs 0 docs s) → (s' : Network) × Ready ms k (waiting ∷ xs) 0 docs s'
  launched {k} {s = s} is = (
    _,
    record {
      reached = later is.reached (launch_shuffler s k is.of_unlaunched);
      of_mappers = is.of_mappers;
      of_unlaunched = refl;
      of_shufflers = ap (λ l. waiting ∷ l) is.of_shufflers;
      of_reducers = is.of_reducers;
      of_docs = is.of_docs;
      open_ = is.open_;
      none_stopped = is.none_stopped;
    },
  )

  launch_shufflers :
      (k : ℕ) (ms : List Mapper) (xs : List Shuffler) (s : Network)
      → Ready ms k (waiting ∷ xs) 0 docs s
      → (ys : List Shuffler) × (s' : Network) × Ready ms 0 (waiting ∷ ys) 0 docs s'
  launch_shufflers zero ms xs s is = (xs, s, is)
  launch_shufflers (suc k) ms xs s is =
      let (s1, is1) = launched is in launch_shufflers k ms (waiting ∷ xs) s1 is1

  launch_reducers :
      (k : ℕ) (ms : List Mapper) (xs : List Shuffler) (s : Network) (r : ℕ)
      → r + k ≡ n
      → Ready ms 0 xs r docs s
      → (s' : Network) × Ready ms 0 xs n docs s'
  unfolding has_stopped sum_by
  launch_reducers zero ms xs s r e is =
      let all_there : r ≡ n = omega (arith, e) in (s, rw all_there at is)
  launch_reducers (suc k) ms xs s r e is =
      launch_reducers k ms xs _ (suc r) (omega (arith, e)) (record {
        reached =
            later is.reached (launch_reducer s is.of_unlaunched (omega (arith, is.of_reducers, e)));
        of_mappers = is.of_mappers;
        of_unlaunched = is.of_unlaunched;
        of_shufflers = is.of_shufflers;
        of_reducers = omega (arith, length-append s.reducers (reducing [] ∷ []), is.of_reducers);
        of_docs = is.of_docs;
        open_ = is.open_;
        none_stopped =
            omega (arith, sum_by-append has_stopped s.reducers (reducing [] ∷ []), is.none_stopped);
      })

  -- The first pair finds its reducer at its select.
  send_one :
      (key : Bytes) (tf : ℕ) (doc : Frequencies) (ms : List Mapper) (xs : List Shuffler)
      (more : List (List Bytes)) (s : Network)
      → 0 < n
      → Ready ms 0 (sending_pairs ((key, tf) ∷ doc) ∷ xs) n more s
      → (s' : Network) × Ready ms 0 (sending_pairs doc ∷ xs) n more s'
  unfolding has_stopped
  send_one key tf doc ms xs more s some_ is =
      let (before, x, after, e, at) =
        split_at s.reducers (fnv32a key % n) (rw is.of_reducers (mod-lt (fnv32a key) some_)) in
      by x before after e at
    where
      by :
          (x : Reducer) (before after : List Reducer)
          → s.reducers ≡ before ++ x ∷ after
          → length before ≡ fnv32a key % n
          → (s' : Network) × Ready ms 0 (sending_pairs doc ∷ xs) n more s'
      by (reducing m) before after e at =
          let y = reducing (add_frequency key tf m) in
          (
            _,
            record {
              reached =
                  later is.reached
                    (send_pair s [] xs key tf doc before after m is.of_shufflers e at);
              of_mappers = is.of_mappers;
              of_unlaunched = is.of_unlaunched;
              of_shufflers = refl;
              of_reducers =
                  omega (arith, is.of_reducers, length-replace before (reducing m) y after e);
              of_docs = is.of_docs;
              open_ = is.open_;
              none_stopped = omega (
                arith,
                is.none_stopped,
                sum_by-replace has_stopped before (reducing m) y after e,
              );
            },
          )
      by (sending_sizes m) before after e at = absurd (
          omega
            (arith, is.none_stopped, sum_by-member has_stopped before (sending_sizes m) after e))
      by (reducer_done m) before after e at = absurd (
          omega (arith, is.none_stopped, sum_by-member has_stopped before (reducer_done m) after e))

  -- The first shuffler sends all pairs of a map.
  send_pairs :
      (doc : Frequencies) (ms : List Mapper) (xs : List Shuffler) (more : List (List Bytes))
      (s : Network)
      → 0 < n
      → Ready ms 0 (sending_pairs doc ∷ xs) n more s
      → (s' : Network) × Ready ms 0 (waiting ∷ xs) n more s'
  send_pairs [] ms xs more s some_ is = (
    _,
    record {
      reached = later is.reached (end_map s [] xs is.of_shufflers);
      of_mappers = is.of_mappers;
      of_unlaunched = is.of_unlaunched;
      of_shufflers = refl;
      of_reducers = is.of_reducers;
      of_docs = is.of_docs;
      open_ = is.open_;
      none_stopped = is.none_stopped;
    },
  )
  send_pairs ((key, tf) ∷ doc) ms xs more s some_ is =
      let (s', is') = send_one key tf doc ms xs more s some_ is in
      send_pairs doc ms xs more s' some_ is'

  -- The second mapper takes all documents that are left, while the first holds its map.
  take_docs :
      (more : List (List Bytes)) (m : Frequencies) (ms : List Mapper) (xs : List Shuffler)
      (s : Network)
      → 0 < n
      → Ready (sending_map m ∷ counting ∷ ms) 0 (waiting ∷ xs) n more s
      → (s' : Network) × Ready (sending_map m ∷ counting ∷ ms) 0 (waiting ∷ xs) n [] s'
  take_docs [] m ms xs s some_ is = (s, is)
  take_docs (doc ∷ more) m ms xs s some_ is =
      let held = sending_map m ∷ [] in
      let counted = sending_map (count_tokens doc []) in
      let step1 = later is.reached (count_doc s held ms doc more is.of_mappers is.of_docs) in
      let step2 =
        later step1
          (send_map _ held ms (count_tokens doc []) [] xs refl is.of_shufflers is.open_) in
      let (s', is') =
        send_pairs (count_tokens doc []) (sending_map m ∷ counting ∷ ms) xs more _ some_ (record {
          reached = step2;
          of_mappers = refl;
          of_unlaunched = is.of_unlaunched;
          of_shufflers = refl;
          of_reducers = is.of_reducers;
          of_docs = refl;
          open_ = is.open_;
          none_stopped = is.none_stopped;
        }) in
      take_docs more m ms xs s' some_ is'

-- With two mappers or more, at least one reducer and a document in the corpus the calculator can
-- panic: the first mapper to find docIn closed closes TermFreq while another has a map to send on it.
pub Reach-Panics :
    (fnv32a : Bytes → ℕ) (k workers : ℕ) (doc : List Bytes) (docs : List (List Bytes))
    → (s : Network) × Reach fnv32a (suc k) (suc (suc workers)) (doc ∷ docs) s × Panics s
unfolding start_network sum_by
Reach-Panics fnv32a k workers doc docs =
    let n = suc k in
    let all = doc ∷ docs in
    let ms = counting ∷ replicate workers counting in
    let (s1, is1) = launched fnv32a n (suc (suc workers)) all (record {
      reached = start;
      of_mappers = refl;
      of_unlaunched = refl;
      of_shufflers = refl;
      of_reducers = refl;
      of_docs = refl;
      open_ = refl;
      none_stopped = refl;
    }) in
    let (xs, s2, is2) = launch_shufflers fnv32a n _ all k (counting ∷ ms) [] s1 is1 in
    let (s3, is3) =
      launch_reducers fnv32a n _ all n (counting ∷ ms) (waiting ∷ xs) s2 0 (omega arith) is2 in
    let held = sending_map (count_tokens doc []) in
    let (s4, is4) =
      take_docs fnv32a n _ all docs (count_tokens doc []) (replicate workers counting) xs _
        (omega arith)
        (record {
          reached = later is3.reached (count_doc s3 [] ms doc docs is3.of_mappers is3.of_docs);
          of_mappers = refl;
          of_unlaunched = is3.of_unlaunched;
          of_shufflers = is3.of_shufflers;
          of_reducers = is3.of_reducers;
          of_docs = refl;
          open_ = is3.open_;
          none_stopped = is3.none_stopped;
        }) in
    (
      _,
      later is4.reached
          (close_term_freq s4 (held ∷ []) (replicate workers counting) is4.of_mappers is4.of_docs),
      closed_term_freq [] (mapper_done ∷ replicate workers counting) (count_tokens doc []) refl
          refl,
    )
