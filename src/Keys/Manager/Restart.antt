-- ===== src/Keys/Manager/Restart.antt =====
-- The keys of the first start are the keys of every later one.
use duck_duck_xor.Base.{ℕ, suc, ◌≡◌, refl, ◌∙◌}
use duck_duck_xor.Base.{true, false, none, some, List, [], ◌∷◌, ◌++◌, arith}
use duck_duck_xor.Base.{length, take, drop, replicate, length-take, length-drop}
use duck_duck_xor.Base.{Bytes, bytes_eq}
use duck_duck_xor.Base.{done, ◌>>=◌}
use duck_duck_xor.Bolt.{Bolt, place_eq}
use duck_duck_xor.Keys.{
  KeyMap, key_size, num_keys, no_keys, derive_children, derive_loop,
  inverse_hash_tree_key_derivation,
}
use duck_duck_xor.Keys.Setup.{
  SecretKey, crypto_key_bucket, master_key_name, encrypt_child_keys, update_key_map,
  store_encrypted_keys, load_db_keys,
}
use duck_duck_xor.Keys.Stored.{IsKeyBucket, AllSized, store_encrypted_keys-loads}
use duck_duck_xor.Keys.Manager.{
  Snacl, create_bucket, store_keys, setup_with, perform_initial_setup, perform_regular_setup,
  new_key_manager,
}

-- A store without the bucket of the keys, where it can be made.
pub record IsFresh (D : Bolt) (db : D.Db) : Type 0 where
  pub absent : D.bucket db (crypto_key_bucket ∷ []) ≡ false
  pub free : D.get db [] crypto_key_bucket ≡ none
  pub nothing_below : (k : Bytes) → D.bucket db (crypto_key_bucket ∷ k ∷ []) ≡ false

-- The six keys below a master key.
six :
    (sha512 : Bytes → Bytes) (master : Bytes)
    → ((m : Bytes) → length (sha512 m) ≡ 64)
    → (keys : List Bytes) × (inverse_hash_tree_key_derivation sha512 master 6 ≡ done keys)
      × (length keys ≡ 6)
      × AllSized keys
unfolding inverse_hash_tree_key_derivation derive_loop derive_children
six sha512 master size =
    let left = λ (m : Bytes). drop 32 (sha512 m) in
    let right = λ (m : Bytes). take 32 (sha512 m) in
    let l = λ (m : Bytes).
      let e : length (left m) ≡ 32 = omega (arith, length-drop 32 (sha512 m), size m) in e in
    let r = λ (m : Bytes).
      let e : length (right m) ≡ 32 = omega (arith, length-take 32 (sha512 m), size m) in e in
    (
      left master
          ∷ right master
          ∷ left (left master)
          ∷ right (left master)
          ∷ left (right master)
          ∷ right (right master)
          ∷ [],
      refl,
      refl,
      (l _, (r _, (l _, (r _, (l _, (r _, tt)))))),
    )

encrypts :
    (s : SecretKey) (f : ℕ → Bytes → Bytes) (n : ℕ) (keys : List Bytes)
    → ((n : ℕ) (m : Bytes) → s.encrypt n m ≡ some (f n m))
    → (es : List Bytes) × (encrypt_child_keys s n keys ≡ some es)
unfolding encrypt_child_keys
encrypts s f n [] h = ([], refl)
encrypts s f n (key ∷ keys) h =
    let (es, e) = encrypts s f (suc n) keys h in (f n key ∷ es, rw (encrypt_child_keys, h n key, e))

module _ (D : Bolt) (S : Snacl) where
  open D use {Db, bucket, get, create, put}
  open S use {
    MasterKey, Params, new_secret_key, key_bytes, secret_key, marshal, unmarshal, derive_key,
  }

  -- The bucket of the keys is made, with the parameters of the master key.
  pub record Prepared (db : Db) (params : Params) (b' : Db) : Type 0 where
    pub b : Db
    pub made : create_bucket D db crypto_key_bucket ≡ some b
    pub put_master : put b (crypto_key_bucket ∷ []) master_key_name (marshal params) ≡ some b'
    pub is_bucket : IsKeyBucket D b'
    pub master : get b' (crypto_key_bucket ∷ []) master_key_name ≡ some (marshal params)

  prepare : (db : Db) (params : Params) → IsFresh D db → (b' : Db) × Prepared db params b'
  unfolding create_bucket place_eq bytes_eq
  prepare db params fresh =
      let P = crypto_key_bucket ∷ [] in
      let (b, e) =
        D.create_returns db [] crypto_key_bucket (D.bucket_root db) (omega arith, omega arith)
          fresh.free in
      let there : bucket b P ≡ true = D.create_bucket db b [] P crypto_key_bucket e in
      let below = λ (k : Bytes).
        let n : bucket b (crypto_key_bucket ∷ k ∷ []) ≡ false =
          D.create_bucket db b [] (crypto_key_bucket ∷ k ∷ []) crypto_key_bucket e
          ∙ fresh.nothing_below k in
        n in
      let (b', e') =
        D.put_returns b P master_key_name (marshal params) there (omega arith, omega arith)
          (omega (arith, S.length-marshal params)) (below master_key_name) in
      (
        b',
        record {
          b = b;
          made = rw (fresh.absent, e);
          put_master = e';
          is_bucket = record {
            there = D.put_bucket b b' P P master_key_name (marshal params) e' ∙ there;
            no_buckets = λ k.
                D.put_bucket b b' P (crypto_key_bucket ∷ k ∷ []) master_key_name (marshal params) e'
                ∙ below k;
          };
          master = D.put_get b b' P P master_key_name master_key_name (marshal params) e';
        },
      )

  setup_lem :
      (sha512 : Bytes → Bytes) (k : MasterKey) (p : Params) (keys es : List Bytes) (db b' db' : Db)
      (m : KeyMap)
      → inverse_hash_tree_key_derivation sha512
          (take key_size (key_bytes k ++ replicate key_size 0))
          num_keys
        ≡ done keys
      → encrypt_child_keys (secret_key k) 0 keys ≡ some es
      → Prepared db p b'
      → store_encrypted_keys D es b' ≡ done (some db')
      → update_key_map keys no_keys ≡ done m
      → setup_with D S sha512 k p db ≡ done (some m, db')
  unfolding setup_with
  setup_lem sha512 k p keys es db b' db' m derived e prep stored loads =
      rw (
        setup_with, derived, ◌>>=◌, e, store_keys, prep.made, prep.put_master, stored, ◌>>=◌, loads,
      )

  -- On a store without keys, with a digest of 64 bytes, where a master key is made and its encryption
  -- succeeds: NewKeyManager returns, with a map of keys and a store. On that store it returns the same
  -- map for the same passphrase, and an error for a passphrase that the parameters refuse, and leaves
  -- the store alone.
  pub new_key_manager-restarts :
      (sha512 : Bytes → Bytes) (salt later : ℕ) (passphrase wrong : Bytes) (k : MasterKey)
      (p : Params) (encrypted : ℕ → Bytes → Bytes) (db : Db)
      → ((m : Bytes) → length (sha512 m) ≡ 64)
      → IsFresh D db
      → new_secret_key salt passphrase ≡ some (k, p)
      → ((n : ℕ) (m : Bytes) → (secret_key k).encrypt n m ≡ some (encrypted n m))
      → derive_key p wrong ≡ none
      → (m : KeyMap) × (db' : Db) × (new_key_manager D S sha512 salt passphrase db
          ≡ done (some m, db'))
        × (new_key_manager D S sha512 later passphrase db' ≡ done (some m, db'))
        × (new_key_manager D S sha512 later wrong db' ≡ done (none, db'))
  unfolding new_key_manager perform_regular_setup
  new_key_manager-restarts sha512 salt later passphrase wrong k p encrypted db size fresh made enc
        bad =
      let (keys, derived, len, sized) =
        six sha512 (take key_size (key_bytes k ++ replicate key_size 0)) size in
      let (es, e) = encrypts (secret_key k) encrypted 0 keys enc in
      let (b', prep) = prepare db p fresh in
      let (db', stored, loads, is, master) =
        store_encrypted_keys-loads D (secret_key k) keys es b' len sized e prep.is_bucket in
      let kept : get db' (crypto_key_bucket ∷ []) master_key_name ≡ some (marshal p) =
        master ∙ prep.master in
      (
        load_db_keys D (secret_key k) db' no_keys,
        db',
        rw (fresh.absent, perform_initial_setup, made)
            (setup_lem sha512 k p keys es db b' db' _ derived e prep stored loads),
        rw (
          is.there,
          kept,
          S.unmarshal-marshal p,
          S.derive_key-new_secret_key salt passphrase k p made,
        ),
        rw (is.there, kept, S.unmarshal-marshal p, bad),
      )
