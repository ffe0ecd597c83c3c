-- ===== src/EncIndex/Counter.antt =====
-- wordIndexCounter of client_proxy/encrypted_index.go. Its lock makes every call atomic, so the
-- calls of all workers are one sequence. The counters are uint32 and wrap.
pub mod History
pub mod Workers
use duck_duck_xor.Base.{ℕ, ◌+◌, Option, none, some, List, [], Bytes, u32, lookup, insert}

pub record IndexDocPair : Type 0 where
  pub count : ℕ
  pub last_id : ℕ

abbrev pub WordIndexCounter : Type 0
WordIndexCounter = List (Bytes × IndexDocPair)

unfoldable pub new_word_index_counter : WordIndexCounter
new_word_index_counter = []

-- The stored pair, or the one that a new word gets.
unfoldable pub pair_or_new : ℕ → Option IndexDocPair → IndexDocPair
pair_or_new doc_id none = record { count = 0; last_id = doc_id }
pair_or_new doc_id (some p) = p

-- readThenIncrement: the value before the increment, and the map after it.
unfoldable pub read_then_increment : Bytes → ℕ → WordIndexCounter → ℕ × WordIndexCounter
unfolding pair_or_new
read_then_increment term doc_id w =
    let pair = pair_or_new doc_id (lookup term w) in
    (pair.count, insert term (record { count = u32 (pair.count + 1); last_id = doc_id }) w)
