-- ===== src/Bolt/Root.antt =====
-- One transaction of the kind that both programs use: a bucket of the root is made if it is not
-- there, and a value is put under a key of it.
use duck_duck_xor.Base.{◌-◌, ◌^◌, ◌<◌, ◌≡◌, ap, ◌∙◌}
use duck_duck_xor.Base.{true, false, ◌||◌, none, some, [], ◌∷◌, arith}
use duck_duck_xor.Base.{if◌then◌else◌}
use duck_duck_xor.Base.{length}
use duck_duck_xor.Base.{Bytes, bytes_eq, bytes_eq_refl}
use duck_duck_xor.Bolt.{Bolt, IsKey, place_eq, place_eq_refl}

-- A bucket is not one of the buckets in it.
deeper : (name k : Bytes) → place_eq (name ∷ []) (name ∷ k ∷ []) ≡ false
unfolding place_eq
deeper name k = rw (bytes_eq_refl name)

module _ (D : Bolt) (name : Bytes) where
  open D use {Db, bucket, get, create, put}

  -- The root has no value in the place of the bucket, and the bucket holds no buckets.
  pub record IsRoot (db : Db) : Type 0 where
    pub root_free : get db [] name ≡ none
    pub no_buckets : (k : Bytes) → bucket db (name ∷ k ∷ []) ≡ false

  -- The transaction has no error, and what it leaves.
  pub record Written (k v : Bytes) (db : Db) : Type 0 where
    pub made : Db
    pub after : Db
    pub creates : create true db [] name ≡ some made
    pub puts : put made (name ∷ []) k v ≡ some after
    pub there : bucket after (name ∷ []) ≡ true
    pub shape : IsRoot after
    pub gets :
        (j : Bytes)
        → get after (name ∷ []) j ≡ (if bytes_eq k j then some v else get db (name ∷ []) j)

  made-Written :
      (k v : Bytes) (db db1 db2 : Db)
      → create true db [] name ≡ some db1
      → put db1 (name ∷ []) k v ≡ some db2
      → IsRoot db
      → Written k v db
  unfolding place_eq bytes_eq
  made-Written k v db db1 db2 e1 e2 shape =
      let at = name ∷ [] in
      record {
        made = db1;
        after = db2;
        creates = e1;
        puts = e2;
        there =
            D.put_bucket db1 db2 at at k v e2
            ∙ D.create_bucket db db1 [] at name e1
            ∙ ap (λ x. x || bucket db at) (place_eq_refl at);
        shape = record {
          root_free =
              D.put_get db1 db2 at [] k name v e2
              ∙ D.create_get db db1 [] [] name name e1
              ∙ shape.root_free;
          no_buckets = λ j.
              D.put_bucket db1 db2 at (name ∷ j ∷ []) k v e2
              ∙ D.create_bucket db db1 [] (name ∷ j ∷ []) name e1
              ∙ ap (λ x. x || bucket db (name ∷ j ∷ [])) (deeper name j)
              ∙ shape.no_buckets j;
        };
        gets = λ j. ground (
          arith,
          bytes_eq_refl name,
          D.put_get db1 db2 at at k j v e2,
          D.create_get db db1 [] at name j e1,
        );
      }

  -- On a root of this shape the transaction has no error.
  pub writes :
      (k v : Bytes) (db : Db)
      → IsKey name
      → IsKey k
      → length v < 2 ^ 31 - 2
      → IsRoot db
      → Written k v db
  unfolding place_eq
  writes k v db is_name is_k small shape =
      let (db1, e1) = D.create_returns db [] name (D.bucket_root db) is_name shape.root_free in
      let made =
        D.create_bucket db db1 [] (name ∷ []) name e1
        ∙ ap (λ x. x || bucket db (name ∷ [])) (place_eq_refl (name ∷ [])) in
      let (db2, e2) = D.put_returns db1 (name ∷ []) k v made is_k small (
        D.create_bucket db db1 [] (name ∷ k ∷ []) name e1
        ∙ ap (λ x. x || bucket db (name ∷ k ∷ [])) (deeper name k)
        ∙ shape.no_buckets k) in
      made-Written k v db db1 db2 e1 e2 shape
