-- ===== src/EncIndex/TsetWorker/Document.antt =====
-- tSetWorker over whole documents: it returns, and every tuple is sent to its slot.
use duck_duck_xor.Base.{ℕ, ◌+◌, ◌≡◌, refl, sym, ap, ◌∙◌, inr}
use duck_duck_xor.Base.{false, List, [], ◌∷◌, ◌++◌, map, append_assoc, append-nil, arith}
use duck_duck_xor.Base.{length}
use duck_duck_xor.Base.{Bytes, u32}
use duck_duck_xor.Base.{Outcome, done}
use mathlib.Core.Path.{subst}
use duck_duck_xor.Crypto.{Primitives, new_prf}
use duck_duck_xor.Preprocess.{InvIndexDocument}
use duck_duck_xor.Keys.{KeyMap, key_at, dh_blind_key, s_tag_key, x_ind_key, w_trap_key}
use duck_duck_xor.EncIndex.Counter.{WordIndexCounter, new_word_index_counter, read_then_increment}
use duck_duck_xor.EncIndex.Counter.History.{
  Call, run, run-append, occurrences, read_then_increment-counts,
}
use duck_duck_xor.EncIndex.Tuple.{TsetFragment}
use duck_duck_xor.EncIndex.TsetWorker.{
  State, Prfs, process_word, process_words, process_document, process_documents, t_set_worker,
  new_prfs, reset_prfs,
}
use duck_duck_xor.EncIndex.TsetWorker.Word.{Invertible, grown, make_tuple-Stores}
use duck_duck_xor.EncIndex.TsetWorker.Places.{
  Place, StoredAt, AllStored, AllStored-append, Stores-StoredAt, document_places, calls_of, places,
  all_calls,
}

-- What a run of the worker has to deliver: it returns, the fragments that it adds stand in the
-- slots, the counter has seen the calls, and the hashes are as they were but for what was written.
pub record Delivers (c : Primitives) (ps : List Place) (calls : List Call) (s : State)
    (r : Outcome State) : Type 0 where
  pub after : State
  pub returns : r ≡ done after
  pub added : List TsetFragment
  pub sent_grows : after.sent ≡ s.sent ++ added
  pub stored : AllStored c ps added
  pub counted : after.counter ≡ run calls new_word_index_counter
  pub same_keys : reset_prfs after.prfs ≡ reset_prfs s.prfs

pub nothing_written : (p : Prfs) → reset_prfs p ≡ p → p.s_tag.written ≡ []
unfolding reset_prfs
nothing_written p h = ap (λ q. q.s_tag.written) (sym h)

-- The index that the worker computes from the counter is the one of the slot.
index_eq :
    (earlier : List Call) (word : Bytes) (doc_id : ℕ) (s : State)
    → s.counter ≡ run earlier new_word_index_counter
    → u32 ((read_then_increment word doc_id s.counter).0 + 1) ≡ u32 (occurrences word earlier + 1)
index_eq earlier word doc_id s e =
    rw (e, read_then_increment-counts word doc_id earlier) (omega arith)

module _ (c : Primitives) (order : ℕ) where
  process_words-Delivers :
      (doc_id : ℕ) (words : List Bytes) (earlier : List Call) (s : State)
      → Invertible c order s.prfs.blind.key
      → s.counter ≡ run earlier new_word_index_counter
      → Delivers c
          (document_places c s.prfs.s_tag.key earlier doc_id s.prfs.s_tag.written words)
          (earlier ++ map (λ w. (w, doc_id)) words)
          s
          (process_words c order doc_id words s)
  unfolding process_words process_word document_places reset_prfs
  process_words-Delivers doc_id [] earlier s inv e = record {
    after = s;
    returns = refl;
    added = [];
    sent_grows = sym (append-nil s.sent);
    stored = tt;
    counted = rw append-nil e;
    same_keys = refl;
  }
  process_words-Delivers doc_id (word ∷ words) earlier s inv e =
      let read = read_then_increment word doc_id s.counter in
      let (f, made, stores) =
        make_tuple-Stores c order s.prfs word read.0 (u32 (read.0 + 1)) doc_id false inv in
      let s' : State = record {
        prfs = grown s.prfs word read.0 doc_id;
        counter = read.1;
        sent = s.sent ++ f ∷ [];
      } in
      let rest = process_words-Delivers doc_id words (earlier ++ (word, doc_id) ∷ []) s' inv (
        ap (λ w. (read_then_increment word doc_id w).1) e
        ∙ sym (run-append earlier word doc_id new_word_index_counter)) in
      record {
        after = rest.after;
        returns = rw made rest.returns;
        added = f ∷ rest.added;
        sent_grows = rest.sent_grows ∙ append_assoc s.sent (f ∷ []) rest.added;
        stored = (
          subst (λ i. StoredAt c (slot i) f) (index_eq earlier word doc_id s e)
              (Stores-StoredAt stores),
          rest.stored,
        );
        counted =
            rest.counted
            ∙ ap (λ calls. run calls new_word_index_counter)
                (append_assoc earlier ((word, doc_id) ∷ []) (map (λ w. (w, doc_id)) words));
        same_keys = rest.same_keys;
      }
    where
      slot : ℕ → Place
      slot i = record {
        stag = c.mac s.prfs.s_tag.key (s.prfs.s_tag.written ++ word);
        index = i;
        doc_id = doc_id;
        is_last = false;
      }

  -- A document at hashes with nothing written leaves them so.
  process_document-Delivers :
      (d : InvIndexDocument) (earlier : List Call) (p : Prfs) (counter : WordIndexCounter)
      (sent : List TsetFragment)
      → Invertible c order p.blind.key
      → reset_prfs p ≡ p
      → counter ≡ run earlier new_word_index_counter
      → let s : State = record { prfs = p; counter = counter; sent = sent } in
        (r : Delivers c
          (document_places c p.s_tag.key earlier d.doc_id [] d.words)
          (earlier ++ calls_of d)
          s
          (process_document c order d s))
        × (r.after.prfs ≡ p)
  unfolding process_document
  process_document-Delivers d earlier p counter sent inv fresh e =
      let s : State = record { prfs = p; counter = counter; sent = sent } in
      let r = process_words-Delivers d.doc_id d.words earlier s inv e in
      (
        record {
          after = record (r.after) { prfs = reset_prfs r.after.prfs };
          returns = rw r.returns;
          added = r.added;
          sent_grows = r.sent_grows;
          stored =
              subst
                (λ w.
                  AllStored c (document_places c p.s_tag.key earlier d.doc_id w d.words) r.added)
                (nothing_written p fresh) r.stored;
          counted = r.counted;
          same_keys = ap reset_prfs (r.same_keys ∙ fresh);
        },
        r.same_keys ∙ fresh,
      )

  at_same_prfs :
      (s : State) (p : Prfs) (ds : List InvIndexDocument) {r : Outcome State}
      → s.prfs ≡ p
      → process_documents c order ds (record { prfs = p; counter = s.counter; sent = s.sent }) ≡ r
      → process_documents c order ds s ≡ r
  at_same_prfs s p ds {r} h =
      subst
        (λ q.
          process_documents c order ds (record { prfs = q; counter = s.counter; sent = s.sent })
          ≡ r)
        (sym h)

  process_documents-Delivers :
      (ds : List InvIndexDocument) (earlier : List Call) (p : Prfs) (counter : WordIndexCounter)
      (sent : List TsetFragment)
      → Invertible c order p.blind.key
      → reset_prfs p ≡ p
      → counter ≡ run earlier new_word_index_counter
      → let s : State = record { prfs = p; counter = counter; sent = sent } in
        Delivers c
          (places c p.s_tag.key earlier ds)
          (earlier ++ all_calls ds)
          s
          (process_documents c order ds s)
  unfolding process_documents places all_calls
  process_documents-Delivers [] earlier p counter sent inv fresh e = record {
    after = record { prfs = p; counter = counter; sent = sent };
    returns = refl;
    added = [];
    sent_grows = sym (append-nil sent);
    stored = tt;
    counted = rw append-nil e;
    same_keys = refl;
  }
  process_documents-Delivers (d ∷ ds) earlier p counter sent inv fresh e =
      let (one, same) = process_document-Delivers d earlier p counter sent inv fresh e in
      let rest =
        process_documents-Delivers ds (earlier ++ calls_of d) p one.after.counter one.after.sent inv
          fresh one.counted in
      record {
        after = rest.after;
        returns = rw one.returns (at_same_prfs one.after p ds same rest.returns);
        added = one.added ++ rest.added;
        sent_grows =
            rest.sent_grows
            ∙ ap (λ l. l ++ rest.added) one.sent_grows
            ∙ append_assoc sent one.added rest.added;
        stored = AllStored-append c _ _ one.added rest.added one.stored rest.stored;
        counted =
            rest.counted
            ∙ ap (λ calls. run calls new_word_index_counter)
                (append_assoc earlier (calls_of d) (all_calls ds));
        same_keys = rest.same_keys;
      }

-- The worker's four keys have the size of keys.
pub record KeysFit (keys : KeyMap) : Type 0 where
  pub x_ind : length (key_at keys x_ind_key) ≡ 32
  pub blind : length (key_at keys dh_blind_key) ≡ 32
  pub w_trap : length (key_at keys w_trap_key) ≡ 32
  pub s_tag : length (key_at keys s_tag_key) ≡ 32

abbrev pub fresh_prfs : KeyMap → Prfs
fresh_prfs keys = record {
  x_ind = record { key = key_at keys x_ind_key; written = [] };
  blind = record { key = key_at keys dh_blind_key; written = [] };
  w_trap = record { key = key_at keys w_trap_key; written = [] };
  s_tag = record { key = key_at keys s_tag_key; written = [] };
}

pub new_prfs-fresh :
    (c : Primitives) (keys : KeyMap) → KeysFit keys → new_prfs c keys ≡ done (fresh_prfs keys)
unfolding new_prfs new_prf
new_prfs-fresh c keys fit = rw (
  c.valid_key_sizes (key_at keys x_ind_key) (inr fit.x_ind),
  c.valid_key_sizes (key_at keys dh_blind_key) (inr fit.blind),
  c.valid_key_sizes (key_at keys w_trap_key) (inr fit.w_trap),
  c.valid_key_sizes (key_at keys s_tag_key) (inr fit.s_tag),
)

-- With keys of 32 bytes and blinding values that have inverses, tSetWorker returns for any
-- documents. Started with a new counter it sends one fragment for each word of each document, in
-- order, in the slots that `places` lists, each with the end byte 0 and its document; and the
-- counter has seen each word of each document once.
pub t_set_worker-AllStored :
    (c : Primitives) (order : ℕ) (keys : KeyMap) (ds : List InvIndexDocument)
    → KeysFit keys
    → Invertible c order (key_at keys dh_blind_key)
    → (s : State) × (t_set_worker c order keys new_word_index_counter ds ≡ done s)
      × AllStored c (places c (key_at keys s_tag_key) [] ds) s.sent
      × (s.counter ≡ run (all_calls ds) new_word_index_counter)
unfolding t_set_worker
t_set_worker-AllStored c order keys ds fit inv =
    let d =
      process_documents-Delivers c order ds [] (fresh_prfs keys) new_word_index_counter [] inv
        (unfold reset_prfs in refl) (unfold run in refl) in
    (
      d.after,
      rw (new_prfs-fresh c keys fit) d.returns,
      subst (AllStored c (places c (key_at keys s_tag_key) [] ds)) (sym d.sent_grows) d.stored,
      d.counted,
    )
