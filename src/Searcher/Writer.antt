-- ===== src/Searcher/Writer.antt =====
-- tSetWriter: after the fragments have been written each label gives its data.
use duck_duck_xor.Base.{◌-◌, ◌^◌, ◌<◌, ◌≡◌, refl, sym, ap, ◌∙◌}
use duck_duck_xor.Base.{true, false, ◌&&◌, ◌||◌, Option, none, some, List, [], ◌∷◌, arith}
use duck_duck_xor.Base.{if◌then◌else◌}
use duck_duck_xor.Base.{length}
use duck_duck_xor.Base.{Bytes, bytes_eq, bytes_eq_refl, bytes_eq_iff}
use mathlib.Core.Path.{subst}
use duck_duck_xor.Bolt.{Bolt, place_eq, place_eq_refl}
use duck_duck_xor.EncIndex.Tuple.{TsetFragment}
use duck_duck_xor.Searcher.{t_set_bucket_key, update, put_fragment, t_set_writer}

-- A fragment as calcTsetTuple makes it: 1 byte for the bucket, 16 for the label.
pub record IsFragment (t : TsetFragment) : Type 0 where
  pub bucket_size : length t.bucket ≡ 1
  pub label_size : length t.label ≡ 16
  pub payload_size : length t.payload < 2 ^ 31 - 2

module _ (D : Bolt) where
  open D use {Db, bucket, get, create, put}

  -- The shape of a store that only tSetWriter wrote the t-set of: no values beside the buckets, no
  -- buckets beside the values, and buckets with names of 1 byte.
  pub record IsTset (db : Db) : Type 0 where
    pub root_free : get db [] t_set_bucket_key ≡ none
    pub no_values : (k : Bytes) → get db (t_set_bucket_key ∷ []) k ≡ none
    pub no_buckets : (b l : Bytes) → bucket db (t_set_bucket_key ∷ b ∷ l ∷ []) ≡ false
    pub one_byte : (b : Bytes) → bucket db (t_set_bucket_key ∷ b ∷ []) ≡ true → length b ≡ 1

  -- Creating the root of the t-set.
  root_made :
      (db db1 : Db)
      → create true db [] t_set_bucket_key ≡ some db1
      → bucket db1 (t_set_bucket_key ∷ []) ≡ true
  root_made db db1 e1 =
      D.create_bucket db db1 [] (t_set_bucket_key ∷ []) t_set_bucket_key e1
      ∙ ap (λ x. x || bucket db (t_set_bucket_key ∷ [])) (place_eq_refl (t_set_bucket_key ∷ []))

  -- Creating the fragment's bucket in it.
  both_made :
      (t : TsetFragment) (db db1 db2 : Db)
      → IsFragment t
      → create true db [] t_set_bucket_key ≡ some db1
      → create true db1 (t_set_bucket_key ∷ []) t.bucket ≡ some db2
      → IsTset db
      → IsTset db2
        × (bucket db2 (t_set_bucket_key ∷ t.bucket ∷ []) ≡ true)
        × (bucket db2 (t_set_bucket_key ∷ []) ≡ true)
  unfolding place_eq bytes_eq
  both_made t db db1 db2 frag e1 e2 shape =
      let root = t_set_bucket_key in
      (
        record {
          root_free =
              D.create_get db1 db2 (root ∷ []) [] t.bucket root e2
              ∙ D.create_get db db1 [] [] root root e1
              ∙ shape.root_free;
          no_values = λ k.
              D.create_get db1 db2 (root ∷ []) (root ∷ []) t.bucket k e2
              ∙ D.create_get db db1 [] (root ∷ []) root k e1
              ∙ shape.no_values k;
          no_buckets = λ b l. ground (
            arith,
            D.create_bucket db1 db2 (root ∷ []) (root ∷ b ∷ l ∷ []) t.bucket e2,
            D.create_bucket db db1 [] (root ∷ b ∷ l ∷ []) root e1,
            shape.no_buckets b l,
          );
          one_byte = λ b h. ground (
            arith,
            D.create_bucket db1 db2 (root ∷ []) (root ∷ b ∷ []) t.bucket e2,
            D.create_bucket db db1 [] (root ∷ b ∷ []) root e1,
            shape.one_byte b,
            bytes_eq_iff t.bucket b,
            frag.bucket_size,
          );
        },
        ground (
          arith,
          D.create_bucket db1 db2 (root ∷ []) (root ∷ t.bucket ∷ []) t.bucket e2,
          bytes_eq_refl t.bucket,
        ),
        ground (
          arith,
          D.create_bucket db1 db2 (root ∷ []) (root ∷ []) t.bucket e2,
          root_made db db1 e1,
        ),
      )

  -- What the transaction for a fragment leaves: the store keeps its shape, the fragment's label
  -- gives its data, and every other label gives what it gave.
  pub record IsWritten (t : TsetFragment) (db db' : Db) : Type 0 where
    pub shape : IsTset db'
    pub has_root : bucket db' (t_set_bucket_key ∷ []) ≡ true
    pub gives :
        (b l : Bytes)
        → get db' (t_set_bucket_key ∷ b ∷ []) l ≡ (
            if bytes_eq t.bucket b && bytes_eq t.label l
            then some t.payload
            else get db (t_set_bucket_key ∷ b ∷ []) l)

  steps-IsWritten :
      (t : TsetFragment) (db db1 db2 db3 : Db)
      → create true db [] t_set_bucket_key ≡ some db1
      → create true db1 (t_set_bucket_key ∷ []) t.bucket ≡ some db2
      → put db2 (t_set_bucket_key ∷ t.bucket ∷ []) t.label t.payload ≡ some db3
      → IsTset db2
      → bucket db2 (t_set_bucket_key ∷ []) ≡ true
      → IsWritten t db db3
  unfolding place_eq bytes_eq
  steps-IsWritten t db db1 db2 db3 e1 e2 e3 shape made =
      let root = t_set_bucket_key in
      let at = root ∷ t.bucket ∷ [] in
      record {
        shape = record {
          root_free = D.put_get db2 db3 at [] t.label root t.payload e3 ∙ shape.root_free;
          no_values =
              λ k. D.put_get db2 db3 at (root ∷ []) t.label k t.payload e3 ∙ shape.no_values k;
          no_buckets = λ b l.
              D.put_bucket db2 db3 at (root ∷ b ∷ l ∷ []) t.label t.payload e3
              ∙ shape.no_buckets b l;
          one_byte = λ b h.
              shape.one_byte b
                (sym (D.put_bucket db2 db3 at (root ∷ b ∷ []) t.label t.payload e3) ∙ h);
        };
        has_root = D.put_bucket db2 db3 at (root ∷ []) t.label t.payload e3 ∙ made;
        gives = λ b l. ground (
          arith,
          D.put_get db2 db3 at (root ∷ b ∷ []) t.label l t.payload e3,
          D.create_get db1 db2 (root ∷ []) (root ∷ b ∷ []) t.bucket l e2,
          D.create_get db db1 [] (root ∷ b ∷ []) root l e1,
        );
      }

  steps-put_fragment :
      (t : TsetFragment) (db db1 db2 db3 : Db)
      → create true db [] t_set_bucket_key ≡ some db1
      → create true db1 (t_set_bucket_key ∷ []) t.bucket ≡ some db2
      → put db2 (t_set_bucket_key ∷ t.bucket ∷ []) t.label t.payload ≡ some db3
      → put_fragment D t db ≡ some db3
  unfolding put_fragment
  steps-put_fragment t db db1 db2 db3 e1 e2 e3 = ground (arith, e1, e2, e3)

  -- The transaction for a fragment has no error on a store of this shape.
  pub put_fragment-IsWritten :
      (t : TsetFragment) (db : Db)
      → IsFragment t
      → IsTset db
      → (db' : Db) × (put_fragment D t db ≡ some db') × IsWritten t db db'
  put_fragment-IsWritten t db frag shape =
      let root = t_set_bucket_key in
      let (db1, e1) =
        D.create_returns db [] root (D.bucket_root db) (omega arith, omega arith) shape.root_free in
      let (db2, e2) =
        D.create_returns db1 (root ∷ []) t.bucket (root_made db db1 e1)
          (omega (arith, frag.bucket_size), omega (arith, frag.bucket_size))
          (D.create_get db db1 [] (root ∷ []) root t.bucket e1 ∙ shape.no_values t.bucket) in
      let (shape2, made, has_root) = both_made t db db1 db2 frag e1 e2 shape in
      let (db3, e3) =
        D.put_returns db2 (root ∷ t.bucket ∷ []) t.label t.payload made
          (omega (arith, frag.label_size), omega (arith, frag.label_size)) frag.payload_size
          (shape2.no_buckets t.bucket t.label) in
      (
        db3,
        steps-put_fragment t db db1 db2 db3 e1 e2 e3,
        steps-IsWritten t db db1 db2 db3 e1 e2 e3 shape2 has_root,
      )

  update-some : (f : Db → Option Db) (db db' : Db) → f db ≡ some db' → update D f db ≡ db'
  unfolding update
  update-some f db db' e = ground arith

  abbrev pub AllFragments : List TsetFragment → Type 0
  AllFragments [] = Unit {0}
  AllFragments (t ∷ ts) = IsFragment t × AllFragments ts

  -- The data that the last fragment for a bucket and a label carries, or the given one.
  unfoldable pub last_written : List TsetFragment → Bytes → Bytes → Option Bytes → Option Bytes
  last_written [] b l old = old
  last_written (t ∷ ts) b l old =
      last_written ts b l
        (if bytes_eq t.bucket b && bytes_eq t.label l then some t.payload else old)

  -- In a store of the shape of a t-set, and for fragments with a bucket of 1 byte, a label of 16
  -- and data below 2 ^ 31 - 2 bytes, tSetWriter writes every one of its fragments. Afterwards each
  -- bucket and label gives the data of the last fragment for it, or what it gave before, and the
  -- store keeps its shape.
  pub t_set_writer-gets :
      (ts : List TsetFragment) (db : Db)
      → AllFragments ts
      → IsTset db
      → IsTset (t_set_writer D ts db)
        × ((b l : Bytes)
            → get (t_set_writer D ts db) (t_set_bucket_key ∷ b ∷ []) l
              ≡ last_written ts b l (get db (t_set_bucket_key ∷ b ∷ []) l))
  unfolding t_set_writer last_written
  t_set_writer-gets [] db frags shape = (shape, λ b l. refl)
  t_set_writer-gets (t ∷ ts) db frags shape =
      let (db', e, w) = put_fragment-IsWritten t db frags.0 shape in
      let (shape', gets) = t_set_writer-gets ts db' frags.1 w.shape in
      subst
        (λ d.
          IsTset d
          × ((b l : Bytes)
              → get d (t_set_bucket_key ∷ b ∷ []) l
                ≡ last_written (t ∷ ts) b l (get db (t_set_bucket_key ∷ b ∷ []) l)))
        (ap (t_set_writer D ts) (sym (update-some (put_fragment D t) db db' e)))
        (shape', λ b l. gets b l ∙ ap (last_written ts b l) (w.gives b l))
