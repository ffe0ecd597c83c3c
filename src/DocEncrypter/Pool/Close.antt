-- ===== src/DocEncrypter/Pool/Close.antt =====
-- Every encrypter closes the channel that all of them send on.
use duck_duck_xor.Base.{ℕ, zero, suc, ◌+◌, ◌*◌, ◌<◌, ◌≡◌, refl, sym, ap, ◌∙◌, ◌⊎◌, inl, inr}
use duck_duck_xor.Base.{true, false, List, [], ◌∷◌, ◌++◌, arith}
use duck_duck_xor.Base.{if◌then◌else◌, Bool-cases}
use duck_duck_xor.Base.{
  sum_by, sum_by-replace, sum_by-find, Inevitably, Ends-Inevitably, List-cases, length, replicate,
  length-append,
}
use duck_duck_xor.Keys.Setup.{SecretKey}
use duck_duck_xor.Preprocess.{Document}
use duck_duck_xor.DocEncrypter.{EncryptedDoc, encrypt_document, doc_aborts}
use duck_duck_xor.DocEncrypter.Pool.{
  Encrypter, selecting, sending, closing, encrypter_done, Streamer, start_streamer, Step, take_doc,
  abort_doc, send, end_docs, close_docs, upload, end_uploader, Panics, closed_send, closed_twice,
  encrypter_runs,
}

unfoldable encrypter_left : Encrypter → ℕ
encrypter_left selecting = 2
encrypter_left (sending doc) = 5
encrypter_left closing = 1
encrypter_left encrypter_done = 0

unfoldable pub steps_left : Streamer → ℕ
unfolding encrypter_left
steps_left s =
    4 * length s.doc_stream
    + sum_by encrypter_left s.encrypters
    + length s.encrypted_docs
    + (if s.uploader_done then 0 else 1)

-- Before the close all n encrypters run, and after it all but one.
pub record IsPool (n : ℕ) (s : Streamer) : Type 0 where
  pub still_open : s.closed ≡ false → sum_by encrypter_runs s.encrypters ≡ n
  pub shut : s.closed ≡ true → sum_by encrypter_runs s.encrypters + 1 ≡ n
  pub some_room : 0 < s.capacity
  pub uploads : s.uploader_done ≡ true → s.closed ≡ true

module _ (doc_key : SecretKey) where
  pub Step-steps_left : (s s' : Streamer) → Step doc_key s s' → steps_left s' < steps_left s
  unfolding steps_left encrypter_left
  Step-steps_left _ _ (take_doc s before after doc docs e d ok) = omega (
    arith,
    ap length d,
    sum_by-replace encrypter_left before selecting (sending (encrypt_document doc_key s.nonces doc))
        after e,
  )
  Step-steps_left _ _ (abort_doc s before after doc docs e d ok) = omega (
    arith,
    ap length d,
    sum_by-replace encrypter_left before selecting (sending (encrypt_document doc_key s.nonces doc))
        after e,
  )
  Step-steps_left _ _ (send s before after doc e open_ room) = omega (
    arith,
    length-append s.encrypted_docs (doc ∷ []),
    sum_by-replace encrypter_left before (sending doc) selecting after e,
  )
  Step-steps_left _ _ (end_docs s before after e d) =
      omega (arith, sum_by-replace encrypter_left before selecting closing after e)
  Step-steps_left _ _ (close_docs s before after e open_) =
      omega (arith, sum_by-replace encrypter_left before closing encrypter_done after e)
  Step-steps_left _ _ (upload s doc docs e goes_on) = omega (arith, ap length e)
  Step-steps_left _ _ (end_uploader s e shut goes_on) = ground arith

  -- An encrypter goes from x to y and still runs.
  moved :
      (n : ℕ) (s s' : Streamer) (before after : List Encrypter) (x y : Encrypter)
      → s.encrypters ≡ before ++ x ∷ after
      → encrypter_runs x ≡ encrypter_runs y
      → s'.encrypters ≡ before ++ y ∷ after
      → s'.closed ≡ s.closed
      → s'.capacity ≡ s.capacity
      → s'.uploader_done ≡ s.uploader_done
      → IsPool n s
      → IsPool n s'
  moved n s s' before after x y e runs e' closed capacity over is =
      let same = sum_by-replace encrypter_runs before x y after e in
      let moved_ = ap (sum_by encrypter_runs) e' in
      record {
        still_open = λ h. omega (arith, is.still_open (sym closed ∙ h), same, runs, moved_);
        shut = λ h. omega (arith, is.shut (sym closed ∙ h), same, runs, moved_);
        some_room = omega (arith, is.some_room, capacity);
        uploads = λ h. closed ∙ is.uploads (sym over ∙ h);
      }

  pub Step-IsPool : (n : ℕ) (s s' : Streamer) → Step doc_key s s' → IsPool n s → IsPool n s'
  unfolding encrypter_runs
  Step-IsPool n _ _ (take_doc s before after doc docs e d ok) is =
      moved n s _ before after selecting (sending (encrypt_document doc_key s.nonces doc)) e refl
        refl refl refl refl is
  Step-IsPool n _ _ (abort_doc s before after doc docs e d ok) is =
      moved n s _ before after selecting (sending (encrypt_document doc_key s.nonces doc)) e refl
        refl refl refl refl is
  Step-IsPool n _ _ (send s before after doc e open_ room) is =
      moved n s _ before after (sending doc) selecting e refl refl refl refl refl is
  Step-IsPool n _ _ (end_docs s before after e d) is =
      moved n s _ before after selecting closing e refl refl refl refl refl is
  Step-IsPool n _ _ (close_docs s before after e open_) is = record {
    still_open = λ h. absurd (ground arith);
    shut = λ h. omega (
      arith,
      is.still_open open_,
      sum_by-replace encrypter_runs before closing encrypter_done after e,
    );
    some_room = is.some_room;
    uploads = λ h. refl;
  }
  Step-IsPool n _ _ (upload s doc docs e goes_on) is = record {
    still_open = is.still_open;
    shut = is.shut;
    some_room = is.some_room;
    uploads = is.uploads;
  }
  Step-IsPool n _ _ (end_uploader s e shut goes_on) is = record {
    still_open = is.still_open;
    shut = is.shut;
    some_room = is.some_room;
    uploads = λ h. shut;
  }

  abbrev pub CanStep : Streamer → Type 0
  CanStep s = (s' : Streamer) × Step doc_key s s'

  -- An encrypter that runs can step, or panics; one that waits for room leaves it to the uploader.
  pub encrypter-steps :
      (s : Streamer)
      → 0 < s.capacity
      → (s.uploader_done ≡ true → s.closed ≡ true)
      → 0 < sum_by encrypter_runs s.encrypters
      → CanStep s ⊎ Panics s
  unfolding encrypter_runs
  encrypter-steps s some_room uploads running =
      let (before, x, after, e, runs) = sum_by-find encrypter_runs s.encrypters running in
      by x before after e runs
    where
      room :
          (before after : List Encrypter) (doc : EncryptedDoc)
          → s.encrypters ≡ before ++ sending doc ∷ after
          → s.closed ≡ false
          → CanStep s
      room before after doc e open_ = elim (List-cases s.encrypted_docs) [
        | inl empty ↦
            (_, send s before after doc e open_ (omega (arith, some_room, ap length empty)))
        | inr (d, ds, full) ↦ elim (Bool-cases s.uploader_done) [
          | inl over ↦ absurd (ground (arith, uploads over, open_))
          | inr goes_on ↦ (_, upload s d ds full goes_on)
        ]
      ]

      by :
          (x : Encrypter) (before after : List Encrypter)
          → s.encrypters ≡ before ++ x ∷ after
          → 0 < encrypter_runs x
          → CanStep s ⊎ Panics s
      by selecting before after e runs = elim (List-cases s.doc_stream) [
        | inl gone ↦ inl (_, end_docs s before after e gone)
        | inr (doc, docs, d) ↦ elim (Bool-cases (doc_aborts doc_key s.nonces doc)) [
          | inl bad ↦ inl (_, abort_doc s before after doc docs e d bad)
          | inr ok ↦ inl (_, take_doc s before after doc docs e d ok)
        ]
      ]
      by (sending doc) before after e runs = elim (Bool-cases s.closed) [
        | inl shut ↦ inr (closed_send before after doc e shut)
        | inr open_ ↦ inl (room before after doc e open_)
      ]
      by closing before after e runs = elim (Bool-cases s.closed) [
        | inl shut ↦ inr (closed_twice before after e shut)
        | inr open_ ↦ inl (_, close_docs s before after e open_)
      ]
      by encrypter_done before after e runs = absurd (omega arith)

  pool-moves : (n : ℕ) (s : Streamer) → IsPool (suc (suc n)) s → CanStep s ⊎ Panics s
  pool-moves n s is = encrypter-steps s is.some_room is.uploads (elim (Bool-cases s.closed) [
    | inl shut ↦ omega (arith, is.shut shut)
    | inr open_ ↦ omega (arith, is.still_open open_)
  ])

  pub start-IsPool : (n : ℕ) (docs : List Document) → IsPool (suc n) (start_streamer (suc n) docs)
  unfolding start_streamer sum_by encrypter_runs
  start-IsPool n docs = record {
    still_open = λ h. omega (arith, all_run n);
    shut = λ h. absurd (ground arith);
    some_room = omega arith;
    uploads = λ h. absurd (ground arith);
  }
    where
      all_run : (k : ℕ) → sum_by encrypter_runs (replicate k selecting) ≡ k
      all_run zero = refl
      all_run (suc k) = omega (arith, all_run k)

  -- With two encrypters or more every run, whatever the documents and the order of its steps, comes to a
  -- panic: each of them that ends closes encryptedDocs, so another sends on the closed channel or closes
  -- it again, if no error has been reported before.
  pub start_streamer-Panics :
      (n : ℕ) (docs : List Document)
      → Inevitably (Step doc_key) (λ s. ⊥) Panics (start_streamer (suc (suc n)) docs)
  start_streamer-Panics n docs =
      Ends-Inevitably (Step doc_key) (λ s. ⊥) Panics
        (record {
          keeps = Step-IsPool (suc (suc n));
          less = Step-steps_left;
          safe = λ s is h. h;
          moves = pool-moves n;
        })
        _ (start-IsPool (suc n) docs)
