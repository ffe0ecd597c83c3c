-- ===== src/Tests/Keys.antt =====
-- Six keys from a master key.
use duck_duck_xor.Crypto.Toy.{toy}
use duck_duck_xor.Keys.{inverse_hash_tree_key_derivation}
use duck_duck_xor.Keys.Derive.{Derives, inverse_hash_tree_key_derivation-Derives}
use duck_duck_xor.Tests.Data.{key7}

inverse_hash_tree_key_derivation-Derives_example :
    Derives toy.sha512 key7 6 (inverse_hash_tree_key_derivation toy.sha512 key7 6)
inverse_hash_tree_key_derivation-Derives_example =
    inverse_hash_tree_key_derivation-Derives toy.sha512 key7 6
