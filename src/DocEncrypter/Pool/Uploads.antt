-- ===== src/DocEncrypter/Pool/Uploads.antt =====
-- One encrypter and the uploader: all documents are sent, in order.
use duck_duck_xor.Base.{ℕ, suc, ◌≡◌, refl, sym, ap, ◌∙◌, ◌⊎◌, inl, inr}
use duck_duck_xor.Base.{true, false, List, [], ◌∷◌, ◌++◌, append_assoc, append-nil, arith}
use duck_duck_xor.Base.{Bool-cases, Nat-cases}
use duck_duck_xor.Base.{
  sum_by, sum_by-replace, sum_by-member, length-replace, Inevitably, Ends-Inevitably, List-cases,
  length, length-append,
}
use mathlib.Core.Path.{subst}
use duck_duck_xor.Keys.Setup.{SecretKey}
use duck_duck_xor.Preprocess.{Document}
use duck_duck_xor.DocDb.{CipherDoc}
use duck_duck_xor.DocEncrypter.{
  EncryptedDoc, encrypt_document, NoneAborts, doc_encrypter, doc_uploader,
}
use duck_duck_xor.DocEncrypter.Pool.{
  Encrypter, selecting, sending, closing, encrypter_done, Streamer, start_streamer, Step, take_doc,
  abort_doc, send, end_docs, close_docs, upload, end_uploader, Panics, closed_send, closed_twice,
  handler_panics, encrypter_runs,
}
use duck_duck_xor.DocEncrypter.Pool.Close.{
  IsPool, Step-steps_left, Step-IsPool, CanStep, encrypter-steps, start-IsPool,
}

-- What the encrypters have at their sends.
unfoldable pending : List Encrypter → List EncryptedDoc
pending [] = []
pending (selecting ∷ xs) = pending xs
pending (sending doc ∷ xs) = doc ∷ pending xs
pending (closing ∷ xs) = pending xs
pending (encrypter_done ∷ xs) = pending xs

-- An encrypter that has not met the end of the documents.
unfoldable at_work : Encrypter → ℕ
at_work selecting = 1
at_work (sending doc) = 1
at_work closing = 0
at_work encrypter_done = 0

pending-one :
    {xs : List Encrypter} (before after : List Encrypter) (x y : Encrypter)
    → xs ≡ before ++ x ∷ after
    → length xs ≡ 1
    → pending (before ++ y ∷ after) ≡ pending (y ∷ [])
pending-one [] [] x y e one = refl
pending-one [] (z ∷ after) x y e one = absurd (omega (arith, one, ap length e))
pending-one (z ∷ before) after x y e one =
    absurd (omega (arith, one, ap length e, length-append before (x ∷ after)))

none_pending : (xs : List Encrypter) → sum_by encrypter_runs xs ≡ 0 → pending xs ≡ []
unfolding sum_by encrypter_runs pending
none_pending [] h = refl
none_pending (selecting ∷ xs) h = absurd (omega arith)
none_pending (sending doc ∷ xs) h = absurd (omega arith)
none_pending (closing ∷ xs) h = absurd (omega arith)
none_pending (encrypter_done ∷ xs) h = none_pending xs (omega (arith, h))

none_works : (xs : List Encrypter) → sum_by encrypter_runs xs ≡ 0 → sum_by at_work xs ≡ 0
unfolding sum_by encrypter_runs at_work
none_works [] h = refl
none_works (selecting ∷ xs) h = absurd (omega arith)
none_works (sending doc ∷ xs) h = absurd (omega arith)
none_works (closing ∷ xs) h = absurd (omega arith)
none_works (encrypter_done ∷ xs) h = omega (arith, none_works xs (omega (arith, h)))

module _ (doc_key : SecretKey) (docs : List Document) where
  -- Everything, from what has been sent to the documents that are still to come.
  abbrev line :
      List CipherDoc → List EncryptedDoc → List EncryptedDoc → ℕ → List Document → List CipherDoc
  line sent buffer held n more =
      sent ++ doc_uploader (buffer ++ (held ++ doc_encrypter doc_key n more))

  record IsInOrder (s : Streamer) : Type 0 where
    pool : IsPool 1 s
    one : length s.encrypters ≡ 1
    in_order :
        line s.uploaded s.encrypted_docs (pending s.encrypters) s.nonces s.doc_stream
        ≡ doc_uploader (doc_encrypter doc_key 0 docs)
    ended : sum_by at_work s.encrypters ≡ 0 → s.doc_stream ≡ []
    drained : s.uploader_done ≡ true → s.encrypted_docs ≡ []
    sound : NoneAborts doc_key s.nonces s.doc_stream
    silent : s.reported ≡ false

  Step-IsInOrder : (s s' : Streamer) → Step doc_key s s' → IsInOrder s → IsInOrder s'
  unfolding pending at_work doc_uploader doc_encrypter
  Step-IsInOrder s s' (take_doc _ before after doc more e d ok) is =
      let held = sending (encrypt_document doc_key s.nonces doc) in
      record {
        pool = Step-IsPool doc_key 1 s _ (take_doc s before after doc more e d ok) is.pool;
        one = length-replace before selecting held after e ∙ is.one;
        in_order =
            ap (λ l. line s.uploaded s.encrypted_docs l (suc s.nonces) more)
              (pending-one before after selecting held e is.one)
            ∙ sym (λ i.
              line s.uploaded s.encrypted_docs
                (pending-one before after selecting selecting e is.one i) s.nonces (doc ∷ more))
            ∙ sym (λ i. line s.uploaded s.encrypted_docs (pending (e i)) s.nonces (d i))
            ∙ is.in_order;
        ended = λ h. absurd (omega (arith, h, sum_by-member at_work before held after refl));
        drained = is.drained;
        sound = (subst (NoneAborts doc_key s.nonces) d is.sound).1;
        silent = is.silent;
      }
  Step-IsInOrder s s' (abort_doc _ before after doc more e d bad) is =
      let good = (subst (NoneAborts doc_key s.nonces) d is.sound).0 in
      absurd (ground (arith, good, bad))
  Step-IsInOrder s s' (send _ before after doc e open_ room) is = record {
    pool = Step-IsPool doc_key 1 s _ (send s before after doc e open_ room) is.pool;
    one = length-replace before (sending doc) selecting after e ∙ is.one;
    in_order =
        ap (λ l. line s.uploaded (s.encrypted_docs ++ doc ∷ []) l s.nonces s.doc_stream)
          (pending-one before after (sending doc) selecting e is.one)
        ∙ ap (λ l. s.uploaded ++ doc_uploader l)
            (append_assoc s.encrypted_docs (doc ∷ []) (doc_encrypter doc_key s.nonces s.doc_stream))
        ∙ sym (
            ap (λ l. line s.uploaded s.encrypted_docs l s.nonces s.doc_stream)
              (ap pending e ∙ pending-one before after (sending doc) (sending doc) e is.one))
        ∙ is.in_order;
    ended = λ h. absurd (omega (arith, h, sum_by-member at_work before selecting after refl));
    drained = λ h. absurd (ground (arith, is.pool.uploads h, open_));
    sound = is.sound;
    silent = is.silent;
  }
  Step-IsInOrder s s' (end_docs _ before after e d) is = record {
    pool = Step-IsPool doc_key 1 s _ (end_docs s before after e d) is.pool;
    one = length-replace before selecting closing after e ∙ is.one;
    in_order =
        ap (λ l. line s.uploaded s.encrypted_docs l s.nonces s.doc_stream)
          (pending-one before after selecting closing e is.one
            ∙ sym (pending-one before after selecting selecting e is.one)
            ∙ sym (ap pending e))
        ∙ is.in_order;
    ended = λ h. d;
    drained = is.drained;
    sound = is.sound;
    silent = is.silent;
  }
  Step-IsInOrder s s' (close_docs _ before after e open_) is = record {
    pool = Step-IsPool doc_key 1 s _ (close_docs s before after e open_) is.pool;
    one = length-replace before closing encrypter_done after e ∙ is.one;
    in_order =
        ap (λ l. line s.uploaded s.encrypted_docs l s.nonces s.doc_stream)
          (pending-one before after closing encrypter_done e is.one
            ∙ sym (pending-one before after closing closing e is.one)
            ∙ sym (ap pending e))
        ∙ is.in_order;
    ended = λ h.
        is.ended (omega (arith, h, sum_by-replace at_work before closing encrypter_done after e));
    drained = is.drained;
    sound = is.sound;
    silent = is.silent;
  }
  Step-IsInOrder s s' (upload _ doc more e goes_on) is = record {
    pool = Step-IsPool doc_key 1 s _ (upload s doc more e goes_on) is.pool;
    one = is.one;
    in_order =
        append_assoc s.uploaded (doc_uploader (doc ∷ [])) (
          doc_uploader
            (more ++ (pending s.encrypters ++ doc_encrypter doc_key s.nonces s.doc_stream)))
        ∙ sym (ap (λ l. line s.uploaded l (pending s.encrypters) s.nonces s.doc_stream) e)
        ∙ is.in_order;
    ended = is.ended;
    drained = λ h. absurd (ground (arith, goes_on, h));
    sound = is.sound;
    silent = is.silent;
  }
  Step-IsInOrder s s' (end_uploader _ e shut goes_on) is = record {
    pool = Step-IsPool doc_key 1 s _ (end_uploader s e shut goes_on) is.pool;
    one = is.one;
    in_order = is.in_order;
    ended = is.ended;
    drained = λ h. e;
    sound = is.sound;
    silent = is.silent;
  }

  -- All goroutines have ended, and docUploader has sent what docEncrypter makes of all documents.
  pub record AllUploaded (s : Streamer) : Type 0 where
    pub every_doc : s.uploaded ≡ doc_uploader (doc_encrypter doc_key 0 docs)
    pub no_encrypter : sum_by encrypter_runs s.encrypters ≡ 0
    pub no_uploader : s.uploader_done ≡ true

  in_order-safe : (s : Streamer) → IsInOrder s → ¬ Panics s
  unfolding encrypter_runs
  in_order-safe s is (closed_send before after doc e shut) =
      omega (arith, is.pool.shut shut, sum_by-member encrypter_runs before (sending doc) after e)
  in_order-safe s is (closed_twice before after e shut) =
      omega (arith, is.pool.shut shut, sum_by-member encrypter_runs before closing after e)
  in_order-safe s is (handler_panics h) = absurd (ground (arith, is.silent, h))

  finished :
      (s : Streamer)
      → IsInOrder s
      → sum_by encrypter_runs s.encrypters ≡ 0
      → s.uploader_done ≡ true
      → AllUploaded s
  unfolding doc_uploader doc_encrypter
  finished s is none_ over = record {
    every_doc =
        sym (append-nil s.uploaded)
        ∙ sym (λ i.
          line s.uploaded (is.drained over i) (none_pending s.encrypters none_ i) s.nonces
            (is.ended (none_works s.encrypters none_) i))
        ∙ is.in_order;
    no_encrypter = none_;
    no_uploader = over;
  }

  uploads-moves : (s : Streamer) → IsInOrder s → CanStep doc_key s ⊎ AllUploaded s
  uploads-moves s is = elim (Nat-cases (sum_by encrypter_runs s.encrypters)) [
    | inr running ↦ elim (encrypter-steps doc_key s is.pool.some_room is.pool.uploads running) [
      | inl move ↦ inl move
      | inr panics ↦ absurd (in_order-safe s is panics)
    ]
    | inl none_ ↦ elim (Bool-cases s.uploader_done) [
      | inl over ↦ inr (finished s is none_ over)
      | inr goes_on ↦ elim (List-cases s.encrypted_docs) [
        | inr (doc, more, e) ↦ inl (_, upload s doc more e goes_on)
        | inl e ↦ inl (_, end_uploader s e (shut none_) goes_on)
      ]
    ]
  ]
    where
      shut : sum_by encrypter_runs s.encrypters ≡ 0 → s.closed ≡ true
      shut none_ = elim (Bool-cases s.closed) [
        | inl closed ↦ closed
        | inr open_ ↦ absurd (omega (arith, is.pool.still_open open_, none_))
      ]

  -- With one encrypter, a stream to the server that takes every document, and no document that makes
  -- the encrypter call abort: every run, whatever the order of its steps, comes without a panic and
  -- without a deadlock to an end of both goroutines, and docUploader has sent what docEncrypter makes
  -- of all documents, in their order.
  pub start_streamer-AllUploaded :
      NoneAborts doc_key 0 docs
      → Inevitably (Step doc_key) Panics AllUploaded (start_streamer 1 docs)
  unfolding start_streamer pending at_work sum_by
  start_streamer-AllUploaded sound =
      Ends-Inevitably (Step doc_key) Panics AllUploaded
        (record {
          keeps = Step-IsInOrder;
          less = Step-steps_left doc_key;
          safe = in_order-safe;
          moves = uploads-moves;
        })
        _
        (record {
          pool = start-IsPool doc_key 0 docs;
          one = refl;
          in_order = refl;
          ended = λ h. absurd (omega arith);
          drained = λ h. refl;
          sound = sound;
          silent = refl;
        })
