-- ===== src/EncIndex/XsetWorker.antt =====
-- xSetWorker of client_proxy/encrypted_index.go: the xtags of each document. The curve operations
-- of crypto/elliptic are a parameter. The batches are kept in the order of the documents; the
-- goroutines that send them wait for the X-Set filter and may overtake one another.
pub mod Tags
pub mod Sends
use duck_duck_xor.Base.{ℕ, List, [], ◌∷◌, ◌++◌, replicate, Bytes, be32, Outcome, done, ◌>>=◌}
use duck_duck_xor.Crypto.{Primitives, Prf, new_prf, write, sum, reset}
use duck_duck_xor.Preprocess.{InvIndexDocument}
use duck_duck_xor.Keys.{KeyMap, key_at, x_ind_key, x_tag_key}

-- The calls of elliptic.Curve: a point from a scalar, a multiple of a point, and its serial form.
pub record Curve : Type 1 where
  pub Point : Type 0
  pub scalar_base_mult : Bytes → Point
  pub scalar_mult : Point → Bytes → Point
  pub marshal : Point → Bytes

-- The two hashes, and the buffer that document identifiers pass through.
pub record XState : Type 0 where
  pub x_ind_prf : Prf
  pub x_tag_prf : Prf
  pub ind_buf : Bytes

module _ (c : Primitives) (E : Curve) where
  open E use {scalar_base_mult, scalar_mult, marshal}

  -- (g^xind)^wtag as a serialised point.
  unfoldable pub make_xtag : Bytes → Bytes → Bytes
  make_xtag xind wtag = marshal (scalar_mult (scalar_base_mult xind) wtag)

  -- The loop over the words of a document. Writing the identifier appends to the buffer, and the
  -- copy to the hash drains it.
  unfoldable pub xtag_words : ℕ → List Bytes → XState → List Bytes × XState
  xtag_words doc_id [] s = ([], s)
  xtag_words doc_id (word ∷ words) s =
      let x_ind_prf' = write s.x_ind_prf (s.ind_buf ++ be32 doc_id) in
      let x_tag_prf' = write s.x_tag_prf word in
      let xtag = make_xtag (sum c x_ind_prf') (sum c x_tag_prf') in
      let rest =
        xtag_words doc_id words
          (record { x_ind_prf = x_ind_prf'; x_tag_prf = x_tag_prf'; ind_buf = [] }) in
      (xtag ∷ rest.0, rest.1)

  -- One document: its xtags, and then the resets.
  unfoldable pub xtag_document : InvIndexDocument → XState → List Bytes × XState
  xtag_document d s =
      let (xtags, s') = xtag_words d.doc_id d.words s in
      (
        xtags,
        record { x_ind_prf = reset s'.x_ind_prf; x_tag_prf = reset s'.x_tag_prf; ind_buf = [] },
      )

  unfoldable pub xtag_documents : List InvIndexDocument → XState → List (List Bytes)
  xtag_documents [] s = []
  xtag_documents (d ∷ ds) s = let (xtags, s') = xtag_document d s in xtags ∷ xtag_documents ds s'

  -- xSetWorker. The buffer is made over four zero bytes, which count as its first content.
  unfoldable pub x_set_worker : KeyMap → List InvIndexDocument → Outcome (List (List Bytes))
  x_set_worker keys ds = do
    x_ind_prf ← new_prf c (key_at keys x_ind_key)
    x_tag_prf ← new_prf c (key_at keys x_tag_key)
    done (
        xtag_documents ds
          (record { x_ind_prf = x_ind_prf; x_tag_prf = x_tag_prf; ind_buf = replicate 4 0 }))
