-- ===== src/Keys/Manager.antt =====
-- client_proxy/key_manager.go: NewKeyManager with its first setup and its regular setup.
pub mod Restart
use duck_duck_xor.Base.{
  ℕ, ◌≡◌, true, Option, none, some, List, [], ◌∷◌, ◌++◌, if◌then◌else◌, length, take, replicate,
  Bytes, Outcome, done, panic, ◌>>=◌,
}
use duck_duck_xor.Bolt.{Bolt}
use duck_duck_xor.Keys.{KeyMap, key_size, num_keys, no_keys, inverse_hash_tree_key_derivation}
use duck_duck_xor.Keys.Setup.{
  SecretKey, crypto_key_bucket, master_key_name, encrypt_child_keys, update_key_map, or_nil,
  store_encrypted_keys, load_db_keys,
}

-- The library snacl. A master key is made from a passphrase and a salt, for which the number
-- stands, and is derived again from the passphrase and the parameters that Marshal writes.
pub record Snacl : Type 1 where
  pub MasterKey : Type 0
  pub Params : Type 0
  pub new_secret_key : ℕ → Bytes → Option (MasterKey × Params)
  pub key_bytes : MasterKey → Bytes
  pub secret_key : MasterKey → SecretKey
  pub marshal : Params → Bytes
  pub unmarshal : Bytes → Option Params
  pub derive_key : Params → Bytes → Option MasterKey
  pub length-marshal : (p : Params) → length (marshal p) ≡ 88
  pub unmarshal-marshal : (p : Params) → unmarshal (marshal p) ≡ some p
  pub derive_key-new_secret_key :
      (salt : ℕ) (passphrase : Bytes) (k : MasterKey) (p : Params)
      → new_secret_key salt passphrase ≡ some (k, p)
      → derive_key p passphrase ≡ some k

module _ (D : Bolt) where
  open D use {Db, bucket, create, put}

  -- Tx.CreateBucket at the root: a bucket that is there is an error.
  unfoldable pub create_bucket : Db → Bytes → Option Db
  create_bucket db name = if bucket db (name ∷ []) then none else create true db [] name

  -- The transaction of performInitialSetup. An error of the first Put ends it without an error, so
  -- the empty bucket is committed.
  unfoldable pub store_keys : Bytes → List Bytes → Db → Outcome (Option Db)
  unfolding create_bucket
  store_keys serialized_master_key encrypted_keys db = elim (create_bucket db crypto_key_bucket) [
    | none ↦ done none
    | some b ↦ elim (put b (crypto_key_bucket ∷ []) master_key_name serialized_master_key) [
      | none ↦ done (some b)
      | some b' ↦ store_encrypted_keys D encrypted_keys b'
    ]
  ]

  module _ (S : Snacl) (sha512 : Bytes → Bytes) where
    open S use {
      MasterKey, Params, new_secret_key, key_bytes, secret_key, marshal, unmarshal, derive_key,
    }

    -- What the first setup does with its master key: derive the children, encrypt, store, and keep.
    unfoldable pub setup_with : MasterKey → Params → Db → Outcome (Option KeyMap × Db)
    unfolding store_keys
    setup_with master_key params db = do
      child_keys ←
          inverse_hash_tree_key_derivation sha512
            (take key_size (key_bytes master_key ++ replicate key_size 0)) num_keys
      elim (encrypt_child_keys (secret_key master_key) 0 child_keys) [
        | none ↦ done (none, db)
        | some encrypted_keys ↦
            (store_keys (marshal params) encrypted_keys db >>= λ stored. elim stored [
              | none ↦ done (none, db)
              | some db' ↦ (update_key_map child_keys no_keys >>= λ m. done (some m, db'))
            ])
      ]

    -- performInitialSetup; `none` is an error.
    unfoldable pub perform_initial_setup : ℕ → Bytes → Db → Outcome (Option KeyMap × Db)
    unfolding setup_with
    perform_initial_setup salt passphrase db = elim (new_secret_key salt passphrase) [
      | none ↦ done (none, db)
      | some (master_key, params) ↦ setup_with master_key params db
    ]

    -- performRegularSetup. Get of a nil bucket panics.
    unfoldable pub perform_regular_setup : Bytes → Db → Outcome (Option KeyMap)
    perform_regular_setup passphrase db =
        if bucket db (crypto_key_bucket ∷ [])
        then (elim (unmarshal (or_nil (D.get db (crypto_key_bucket ∷ []) master_key_name))) [
          | none ↦ done none
          | some params ↦ elim (derive_key params passphrase) [
            | none ↦ done none
            | some master_key ↦ done (some (load_db_keys D (secret_key master_key) db no_keys))
          ]
        ])
        else panic

    -- NewKeyManager: the key map or an error, and the store afterwards.
    unfoldable pub new_key_manager : ℕ → Bytes → Db → Outcome (Option KeyMap × Db)
    unfolding perform_initial_setup perform_regular_setup
    new_key_manager salt passphrase db =
        if bucket db (crypto_key_bucket ∷ [])
        then (perform_regular_setup passphrase db >>= λ m. done (m, db))
        else perform_initial_setup salt passphrase db
