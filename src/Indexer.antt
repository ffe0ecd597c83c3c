-- ===== src/Indexer.antt =====
-- client_proxy/index.go: counting the keywords for the X-Set.
pub mod XSet
use duck_duck_xor.Base.{ℕ, ◌+◌, Option, List, [], ◌∷◌, length}
use duck_duck_xor.Preprocess.{InvIndexDocument}
use duck_duck_xor.Bloom.{Inbox, init_x_set}

-- The loop of totalKeyWordSummer.
unfoldable pub count_key_words : ℕ → List InvIndexDocument → ℕ
count_key_words count [] = count
count_key_words count (doc ∷ docs) = count_key_words (count + length doc.words) docs

-- totalKeyWordSummer: the sum over all documents goes to the bloom master. `none` is the ignored
-- error of a master that shuts down.
unfoldable pub total_key_word_summer : List InvIndexDocument → Inbox → Option Inbox
unfolding count_key_words
total_key_word_summer docs bloom = init_x_set (count_key_words 0 docs) bloom
