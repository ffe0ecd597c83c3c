-- ===== src/Keys/Setup.antt =====
-- client_proxy/key_manager.go: storing the keys under the master key and loading them again. The
-- bucket of the keys is a place of the store.
use duck_duck_xor.Base.{ℕ, zero, suc, ◌+◌, ◌≡◌}
use duck_duck_xor.Base.{Option, none, some, List, [], ◌∷◌, ◌++◌}
use duck_duck_xor.Base.{length, get_elem?, take, replicate}
use duck_duck_xor.Base.{Bytes}
use duck_duck_xor.Base.{Outcome, done, blocked, ◌>>=◌, deref}
use duck_duck_xor.Bolt.{Bolt}
use duck_duck_xor.Keys.{
  KeyType, KeyMap, key_size, num_keys, key_type, bolt_key, put_key, w_trap_key, x_tag_key,
  x_ind_key, dh_blind_key, s_tag_key,
}

-- snacl.SecretKey, unlocked. The number stands for the nonce of a call. A nil or damaged text does
-- not decrypt.
pub record SecretKey : Type 0 where
  pub encrypt : ℕ → Bytes → Option Bytes
  pub decrypt : Bytes → Option Bytes
  pub decrypt-encrypt : (n : ℕ) (m e : Bytes) → encrypt n m ≡ some e → decrypt e ≡ some m
  pub encrypt-length : (n : ℕ) (m e : Bytes) → encrypt n m ≡ some e → length e ≡ length m + 40

-- cryptoKeyBucket.
abbrev pub crypto_key_bucket : Bytes
crypto_key_bucket = b'c' ∷ b'r' ∷ b'y' ∷ b'p' ∷ b't' ∷ b'o' ∷ b'K' ∷ b'e' ∷ b'y' ∷ b's' ∷ []

-- masterKeyName.
abbrev pub master_key_name : Bytes
master_key_name = b'm' ∷ b'a' ∷ b's' ∷ b't' ∷ b'e' ∷ b'r' ∷ []

-- encryptChildKeys, from the n-th nonce on.
unfoldable pub encrypt_child_keys : SecretKey → ℕ → List Bytes → Option (List Bytes)
encrypt_child_keys s n [] = some []
encrypt_child_keys s n (key ∷ keys) =
    let rest = encrypt_child_keys s (suc n) keys in
    elim (s.encrypt n key) [
      | none ↦ none
      | some ec ↦ elim rest [ none ↦ none | some ecs ↦ some (ec ∷ ecs) ]
    ]

-- The loop of updateKeyMap from `i` on, `count` keys. Too few keys are an index out of range.
unfoldable pub update_from : ℕ → ℕ → List Bytes → KeyMap → Outcome KeyMap
unfolding key_type put_key
update_from zero i keys m = done m
update_from (suc count) i keys m = do
  key ← deref (get_elem? keys i)
  update_from count (suc i) keys (put_key (key_type i) key m)

-- updateKeyMap.
unfoldable pub update_key_map : List Bytes → KeyMap → Outcome KeyMap
unfolding update_from
update_key_map keys m = update_from num_keys 0 keys m

-- `copy(a[:], decryptedKey)` to an array of keySize bytes.
abbrev pub to_array : Bytes → Bytes
to_array k = take key_size (k ++ replicate key_size 0)

abbrev pub or_nil : Option Bytes → Bytes
or_nil none = []
or_nil (some b) = b

module _ (D : Bolt) where
  open D use {Db, get, put}

  -- The loop of storeEncryptedKeys; `none` is the error of Put.
  unfoldable pub store_from : ℕ → ℕ → List Bytes → Db → Outcome (Option Db)
  unfolding key_type bolt_key
  store_from zero i keys db = done (some db)
  store_from (suc count) i keys db = do
    key ← deref (get_elem? keys i)
    elim (put db (crypto_key_bucket ∷ []) (bolt_key (key_type i)) key) [
      | none ↦ done none
      | some db' ↦ store_from count (suc i) keys db'
    ]

  -- storeEncryptedKeys.
  unfoldable pub store_encrypted_keys : List Bytes → Db → Outcome (Option Db)
  unfolding store_from
  store_encrypted_keys keys db = store_from num_keys 0 keys db

  -- The loop of loadDBKeys; it ends without an error at the first key that does not decrypt.
  unfoldable pub load_from : SecretKey → ℕ → ℕ → Db → KeyMap → KeyMap
  unfolding key_type bolt_key put_key
  load_from s zero i db m = m
  load_from s (suc count) i db m =
      elim (s.decrypt (or_nil (get db (crypto_key_bucket ∷ []) (bolt_key (key_type i))))) [
        | none ↦ m
        | some key ↦ load_from s count (suc i) db (put_key (key_type i) (to_array key) m)
      ]

  -- loadDBKeys.
  unfoldable pub load_db_keys : SecretKey → Db → KeyMap → KeyMap
  unfolding load_from
  load_db_keys s db m = load_from s num_keys 0 db m

-- requestHandler for one request: a type without a key is answered over the error channel, which no
-- caller makes, so it waits for ever.
unfoldable pub handle_request : KeyMap → KeyType → Outcome Bytes
handle_request m which_key = elim (m which_key) [ none ↦ blocked | some key ↦ done key ]

-- FetchDocEncKey: it asks for the trapdoor key.
unfoldable pub fetch_doc_enc_key : KeyMap → Outcome Bytes
unfolding handle_request
fetch_doc_enc_key m = handle_request m w_trap_key

-- FetchWTrapKey.
unfoldable pub fetch_w_trap_key : KeyMap → Outcome Bytes
unfolding handle_request
fetch_w_trap_key m = handle_request m w_trap_key

-- FetchXTagKey.
unfoldable pub fetch_x_tag_key : KeyMap → Outcome Bytes
unfolding handle_request
fetch_x_tag_key m = handle_request m x_tag_key

-- FetchXIndKey.
unfoldable pub fetch_x_ind_key : KeyMap → Outcome Bytes
unfolding handle_request
fetch_x_ind_key m = handle_request m x_ind_key

-- FetchDHBlindKey.
unfoldable pub fetch_dh_blind_key : KeyMap → Outcome Bytes
unfolding handle_request
fetch_dh_blind_key m = handle_request m dh_blind_key

-- FetchSTagKey.
unfoldable pub fetch_s_tag_key : KeyMap → Outcome Bytes
unfolding handle_request
fetch_s_tag_key m = handle_request m s_tag_key
