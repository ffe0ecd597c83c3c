-- ===== src/Keys/Stored.antt =====
-- Keys that are stored are loaded again.
use duck_duck_xor.Base.{ℕ, zero, suc, ◌+◌, ◌-◌, ◌^◌, ◌≤◌, ◌<◌, ◌≡◌, refl, ap, ◌∙◌, inl, inr}
use duck_duck_xor.Base.{true, false, Option, some, List, [], ◌∷◌, ◌++◌, arith}
use duck_duck_xor.Base.{if◌then◌else◌, Option-cases}
use duck_duck_xor.Base.{length, get_elem?, take, replicate}
use duck_duck_xor.Base.{Bytes, bytes_eq}
use duck_duck_xor.Base.{done}
use mathlib.Core.Path.{subst}
use duck_duck_xor.Bolt.{Bolt, place_eq_refl}
use duck_duck_xor.Keys.{KeyMap, no_keys, key_type, bolt_key, put_key}
use duck_duck_xor.Keys.Setup.{
  SecretKey, crypto_key_bucket, master_key_name, encrypt_child_keys, update_key_map, update_from,
  store_from, store_encrypted_keys, load_from, load_db_keys,
}

-- The bucket is there, and no key names a bucket in it.
pub record IsKeyBucket (D : Bolt) (db : D.Db) : Type 0 where
  pub there : D.bucket db (crypto_key_bucket ∷ []) ≡ true
  pub no_buckets : (k : Bytes) → D.bucket db (crypto_key_bucket ∷ k ∷ []) ≡ false

abbrev pub AllSmall : List Bytes → Type 0
AllSmall [] = Unit {0}
AllSmall (e ∷ es) = (length e < 2 ^ 31 - 2) × AllSmall es

unfoldable written : ℕ → ℕ → List Bytes → (Bytes → Option Bytes) → Bytes → Option Bytes
unfolding key_type bolt_key
written zero i es g j = g j
written (suc count) i es g j =
    written count (suc i) es
      (λ k. if bytes_eq (bolt_key (key_type i)) k then get_elem? es i else g k) j

bolt_key-IsKey :
    (i : ℕ)
    → i < 6
    → (0 < length (bolt_key (key_type i))) × (length (bolt_key (key_type i)) ≤ 32768)
unfolding bolt_key key_type
bolt_key-IsKey zero h = (omega arith, omega arith)
bolt_key-IsKey (suc zero) h = (omega arith, omega arith)
bolt_key-IsKey (suc (suc zero)) h = (omega arith, omega arith)
bolt_key-IsKey (suc (suc (suc zero))) h = (omega arith, omega arith)
bolt_key-IsKey (suc (suc (suc (suc zero)))) h = (omega arith, omega arith)
bolt_key-IsKey (suc (suc (suc (suc (suc zero))))) h = (omega arith, omega arith)
bolt_key-IsKey (suc (suc (suc (suc (suc (suc i)))))) h = absurd (omega arith)

get-AllSmall :
    (es : List Bytes) (i : ℕ)
    → AllSmall es
    → i < length es
    → (e : Bytes) × (get_elem? es i ≡ some e) × (length e < 2 ^ 31 - 2)
get-AllSmall [] i h k = absurd (omega arith)
get-AllSmall (e ∷ es) zero h k = (e, refl, h.0)
get-AllSmall (e ∷ es) (suc i) h k = get-AllSmall es i h.1 (omega arith)

written-ap :
    (count i : ℕ) (es : List Bytes) (g g' : Bytes → Option Bytes) (j : Bytes)
    → ((k : Bytes) → g k ≡ g' k)
    → written count i es g j ≡ written count i es g' j
unfolding written
written-ap zero i es g g' j h = h j
written-ap (suc count) i es g g' j h = written-ap count (suc i) es _ _ j (λ k. rw (h k))

module _ (D : Bolt) where
  open D use {Db, bucket, get, put, put_returns, put_get, put_bucket}

  put-IsKeyBucket :
      (db db' : Db) (k v : Bytes)
      → put db (crypto_key_bucket ∷ []) k v ≡ some db'
      → IsKeyBucket D db
      → IsKeyBucket D db'
  put-IsKeyBucket db db' k v e is = record {
    there = put_bucket db db' (crypto_key_bucket ∷ []) (crypto_key_bucket ∷ []) k v e ∙ is.there;
    no_buckets = λ j.
        put_bucket db db' (crypto_key_bucket ∷ []) (crypto_key_bucket ∷ j ∷ []) k v e
        ∙ is.no_buckets j;
  }

  store_from-written :
      (count i : ℕ) (es : List Bytes) (db : Db)
      → i + count ≡ 6
      → length es ≡ 6
      → AllSmall es
      → IsKeyBucket D db
      → (db' : Db) × (store_from D count i es db ≡ done (some db'))
        × IsKeyBucket D db'
        × ((j : Bytes)
            → get db' (crypto_key_bucket ∷ []) j
              ≡ written count i es (get db (crypto_key_bucket ∷ [])) j)
  unfolding store_from written
  store_from-written zero i es db n len small is = (db, refl, is, λ j. refl)
  store_from-written (suc count) i es db n len small is =
      let (e, at, fits) = get-AllSmall es i small (omega (arith, n, len)) in
      let (db1, e1) =
        put_returns db (crypto_key_bucket ∷ []) (bolt_key (key_type i)) e is.there
          (bolt_key-IsKey i (omega (arith, n))) fits (is.no_buckets _) in
      let (db', e', is', gets) =
        store_from-written count (suc i) es db1 (omega (arith, n)) len small
          (put-IsKeyBucket db db1 _ e e1 is) in
      (
        db',
        rw (at, e1, e'),
        is',
        λ j.
            gets j
            ∙ written-ap count (suc i) es _ _ j (λ k.
              put_get db db1 (crypto_key_bucket ∷ []) (crypto_key_bucket ∷ [])
                (bolt_key (key_type i)) k e e1
              ∙ rw (place_eq_refl (crypto_key_bucket ∷ []), at)),
      )

written-at :
    (es : List Bytes) (g : Bytes → Option Bytes) (i : ℕ)
    → i < 6
    → written 6 0 es g (bolt_key (key_type i)) ≡ get_elem? es i
unfolding written bytes_eq bolt_key key_type
written-at es g zero h = refl
written-at es g (suc zero) h = refl
written-at es g (suc (suc zero)) h = refl
written-at es g (suc (suc (suc zero))) h = refl
written-at es g (suc (suc (suc (suc zero)))) h = refl
written-at es g (suc (suc (suc (suc (suc zero))))) h = refl
written-at es g (suc (suc (suc (suc (suc (suc i)))))) h = absurd (omega arith)

-- The keys do not overwrite the parameters of the master key.
written-master :
    (es : List Bytes) (g : Bytes → Option Bytes)
    → written 6 0 es g master_key_name ≡ g master_key_name
unfolding written bytes_eq bolt_key key_type
written-master es g = refl

-- Every key is an array of 32 bytes.
abbrev pub AllSized : List Bytes → Type 0
AllSized [] = Unit {0}
AllSized (key ∷ keys) = (length key ≡ 32) × AllSized keys

get-AllSized :
    (keys : List Bytes) (i : ℕ)
    → AllSized keys
    → i < length keys
    → (key : Bytes) × (get_elem? keys i ≡ some key) × (length key ≡ 32)
get-AllSized [] i h k = absurd (omega arith)
get-AllSized (key ∷ keys) zero h k = (key, refl, h.0)
get-AllSized (key ∷ keys) (suc i) h k = get-AllSized keys i h.1 (omega arith)

take-append : (n : ℕ) (xs ys : Bytes) → length xs ≡ n → take n (xs ++ ys) ≡ xs
take-append zero [] ys h = refl
take-append zero (x ∷ xs) ys h = absurd (omega arith)
take-append (suc n) [] ys h = absurd (omega arith)
take-append (suc n) (x ∷ xs) ys h = ap (λ t. x ∷ t) (take-append n xs ys (omega arith))

-- The texts decrypt to the keys, one for one.
abbrev Encrypts : SecretKey → List Bytes → List Bytes → Type 0
Encrypts s [] [] = Unit {0}
Encrypts s [] (e ∷ es) = ⊥
Encrypts s (key ∷ keys) [] = ⊥
Encrypts s (key ∷ keys) (e ∷ es) = (s.decrypt e ≡ some key) × Encrypts s keys es

encrypt_child_keys-Encrypts :
    (s : SecretKey) (n : ℕ) (keys es : List Bytes)
    → encrypt_child_keys s n keys ≡ some es
    → AllSized keys
    → Encrypts s keys es × AllSmall es × (length es ≡ length keys)
unfolding encrypt_child_keys
encrypt_child_keys-Encrypts s n [] [] e h = (tt, tt, refl)
encrypt_child_keys-Encrypts s n [] (c ∷ es) e h = absurd (ground arith)
encrypt_child_keys-Encrypts s n (key ∷ keys) es e h = elim (Option-cases (s.encrypt n key)) [
  | inl fails ↦ absurd (ground (arith, e, fails))
  | inr (c, ec) ↦ elim (Option-cases (encrypt_child_keys s (suc n) keys)) [
    | inl fails ↦ absurd (ground (arith, e, ec, fails))
    | inr (cs, ecs) ↦
        let both : c ∷ cs ≡ es = ground (arith, e, ec, ecs) in
        let (opens, small, same) = encrypt_child_keys-Encrypts s (suc n) keys cs ecs h.1 in
        subst (λ xs. Encrypts s (key ∷ keys) xs × AllSmall xs × (length xs ≡ length (key ∷ keys)))
          both
          (
            (s.decrypt-encrypt n key c ec, opens),
            (omega (arith, s.encrypt-length n key c ec, h.0), small),
            ap suc same,
          )
  ]
]

Encrypts-get :
    (s : SecretKey) (keys es : List Bytes) (i : ℕ) (key : Bytes)
    → Encrypts s keys es
    → get_elem? keys i ≡ some key
    → (e : Bytes) × (get_elem? es i ≡ some e) × (s.decrypt e ≡ some key)
Encrypts-get s [] [] i key h at = absurd (ground arith)
Encrypts-get s [] (e ∷ es) i key h at = absurd h
Encrypts-get s (k ∷ keys) [] i key h at = absurd h
Encrypts-get s (k ∷ keys) (e ∷ es) zero key h at = (e, refl, ground (arith, h.0, at))
Encrypts-get s (k ∷ keys) (e ∷ es) (suc i) key h at = Encrypts-get s keys es i key h.1 at

module _ (D : Bolt) (s : SecretKey) where
  open D use {Db, get}

  load_from-update :
      (count i : ℕ) (keys : List Bytes) (db : Db) (m : KeyMap)
      → i + count ≡ 6
      → length keys ≡ 6
      → AllSized keys
      → ((j : ℕ) (key : Bytes)
          → j < 6
          → get_elem? keys j ≡ some key
          → (e : Bytes) × (get db (crypto_key_bucket ∷ []) (bolt_key (key_type j)) ≡ some e)
            × (s.decrypt e ≡ some key))
      → update_from count i keys m ≡ done (load_from D s count i db m)
  unfolding update_from load_from
  load_from-update zero i keys db m n len sized reads = refl
  load_from-update (suc count) i keys db m n len sized reads =
      let (key, at, size) = get-AllSized keys i sized (omega (arith, n, len)) in
      let (e, stored, opens) = reads i key (omega (arith, n)) at in
      rw (at, load_from, stored, opens, take-append 32 key (replicate 32 0) size)
        (load_from-update count (suc i) keys db (put_key (key_type i) key m) (omega (arith, n)) len
          sized reads)

  -- What the store gives afterwards, for the keys and for the parameters of the master key.
  pub store_encrypted_keys-loads :
      (keys es : List Bytes) (db : Db)
      → length keys ≡ 6
      → AllSized keys
      → encrypt_child_keys s 0 keys ≡ some es
      → IsKeyBucket D db
      → (db' : Db) × (store_encrypted_keys D es db ≡ done (some db'))
        × (update_key_map keys no_keys ≡ done (load_db_keys D s db' no_keys))
        × IsKeyBucket D db'
        × (get db' (crypto_key_bucket ∷ []) master_key_name
            ≡ get db (crypto_key_bucket ∷ []) master_key_name)
  unfolding store_encrypted_keys update_key_map load_db_keys
  store_encrypted_keys-loads keys es db len sized encrypted is =
      let (opens, small, same) = encrypt_child_keys-Encrypts s 0 keys es encrypted sized in
      let (db', e, is', gets) = store_from-written D 6 0 es db refl (same ∙ len) small is in
      (
        db',
        e,
        load_from-update 6 0 keys db' no_keys refl len sized (λ j key h at.
            let (c, at', open_) = Encrypts-get s keys es j key opens at in
            (c, gets _ ∙ written-at es _ j h ∙ at', open_)),
        is',
        gets master_key_name ∙ written-master es _,
      )

  -- Six keys of 32 bytes whose encryption succeeds are stored in the bucket of the keys, and what is
  -- loaded from there with the same master key is the map that the first setup made of the keys.
  pub load_db_keys-store_encrypted_keys :
      (keys es : List Bytes) (db : Db)
      → length keys ≡ 6
      → AllSized keys
      → encrypt_child_keys s 0 keys ≡ some es
      → IsKeyBucket D db
      → (db' : Db) × (store_encrypted_keys D es db ≡ done (some db'))
        × (update_key_map keys no_keys ≡ done (load_db_keys D s db' no_keys))
  load_db_keys-store_encrypted_keys keys es db len sized encrypted is =
      let (db', e, loads, is', master) =
        store_encrypted_keys-loads keys es db len sized encrypted is in
      (db', e, loads)
