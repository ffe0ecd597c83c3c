-- ===== src/Keys.antt =====
-- client_proxy/key_manager.go: the derivation, storage and lookup of the keys.
pub mod Derive
pub mod Setup
pub mod Stored
pub mod Manager
use duck_duck_xor.Base.{
  ℕ, zero, suc, ◌+◌, Option, none, some, List, [], ◌∷◌, ◌++◌, ltb, ◌==◌, if◌then◌else◌, length,
  take, drop, replicate, Bytes, Outcome, done, panic, blocked,
}
use duck_duck_xor.Bolt.{Bolt}

-- KeyType.
pub data KeyType : Type 0 where
  w_trap_key x_tag_key x_ind_key dh_blind_key s_tag_key doc_enc_key permute_tweak : KeyType

-- keySize and numKeys.
abbrev pub key_size : ℕ
key_size = 32

abbrev pub num_keys : ℕ
num_keys = 6

-- The type of a number, for the numbers below numKeys.
unfoldable pub key_type : ℕ → KeyType
key_type zero = w_trap_key
key_type (suc zero) = x_tag_key
key_type (suc (suc zero)) = x_ind_key
key_type (suc (suc (suc zero))) = dh_blind_key
key_type (suc (suc (suc (suc zero)))) = s_tag_key
key_type (suc (suc (suc (suc (suc zero))))) = doc_enc_key
key_type (suc (suc (suc (suc (suc (suc n)))))) = permute_tweak

-- The number of a type in its enumeration.
unfoldable pub key_index : KeyType → ℕ
key_index w_trap_key = 0
key_index x_tag_key = 1
key_index x_ind_key = 2
key_index dh_blind_key = 3
key_index s_tag_key = 4
key_index doc_enc_key = 5
key_index permute_tweak = 6

-- keyToBoltKey; the map has no entry for the last type, which reads as a nil slice.
unfoldable pub bolt_key : KeyType → Bytes
bolt_key w_trap_key = b'k' ∷ b'_' ∷ b's' ∷ []
bolt_key x_tag_key = b'k' ∷ b'_' ∷ b'x' ∷ []
bolt_key x_ind_key = b'k' ∷ b'_' ∷ b'i' ∷ []
bolt_key dh_blind_key = b'k' ∷ b'_' ∷ b'z' ∷ []
bolt_key s_tag_key = b'k' ∷ b'_' ∷ b't' ∷ []
bolt_key doc_enc_key = b'd' ∷ b'o' ∷ b'c' ∷ b'_' ∷ b'k' ∷ b'e' ∷ b'y' ∷ []
bolt_key permute_tweak = []

-- map[KeyType][keySize]byte.
abbrev pub KeyMap : Type 0
KeyMap = KeyType → Option Bytes

abbrev pub no_keys : KeyMap
no_keys = λ k. none

-- `keyMap[k] = key`.
unfoldable pub put_key : KeyType → Bytes → KeyMap → KeyMap
unfolding key_index
put_key k key m j = if key_index k == key_index j then some key else m j

-- `keyMap[k]`, the zero array for a missing key.
unfoldable pub key_at : KeyMap → KeyType → Bytes
key_at m k = elim (m k) [ none ↦ replicate key_size 0 | some key ↦ key ]

-- deriveChildren: the second half of the digest is the first child.
unfoldable pub derive_children : (Bytes → Bytes) → Bytes → List Bytes
derive_children sha512 parent =
    let next_level = sha512 parent in drop 32 next_level ∷ take 32 next_level ∷ []

-- The loop of inverseHashTreeKeyDerivation on fuel, over the child keys, the queue of parents, and
-- the number of keys derived. An empty queue is an index out of range.
unfoldable pub derive_loop :
    (Bytes → Bytes) → ℕ → ℕ → List Bytes → List Bytes → ℕ → Outcome (List Bytes)
unfolding derive_children
derive_loop sha512 zero num_target child_keys queue num_derived = blocked
derive_loop sha512 (suc fuel) num_target child_keys [] num_derived =
    if ltb num_derived num_target then panic else done child_keys
derive_loop sha512 (suc fuel) num_target child_keys (parent ∷ queue) num_derived =
    let derived = derive_children sha512 parent in
    let rest =
      derive_loop sha512 fuel num_target (child_keys ++ derived) (queue ++ derived)
        (num_derived + length derived) in
    if ltb num_derived num_target then rest else done child_keys

-- inverseHashTreeKeyDerivation. Every round derives two keys, so one round more than the target
-- is fuel enough.
unfoldable pub inverse_hash_tree_key_derivation : (Bytes → Bytes) → Bytes → ℕ → Outcome (List Bytes)
unfolding derive_loop
inverse_hash_tree_key_derivation sha512 master_key num_target =
    derive_loop sha512 (suc num_target) num_target [] (master_key ∷ []) 0
