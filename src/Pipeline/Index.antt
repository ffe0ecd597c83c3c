-- ===== src/Pipeline/Index.antt =====
-- The encrypted index: tSetWorker and tSetJanitor on the client, UploadTSet and tSetWriter on the
-- server.
use duck_duck_xor.Base.{ℕ, ◌≤◌, ◌≡◌, refl, ap, ◌∙◌}
use duck_duck_xor.Base.{
  Bool, true, false, ◌&&◌, ◌||◌, Option, some, List, [], ◌∷◌, ◌++◌, map, arith,
}
use duck_duck_xor.Base.{if◌then◌else◌}
use duck_duck_xor.Base.{length}
use duck_duck_xor.Base.{Bytes, bytes_eq, bytes_eq_refl, be32}
use duck_duck_xor.Base.{done}
use mathlib.Core.Path.{subst}
use duck_duck_xor.Crypto.{Primitives}
use duck_duck_xor.Bolt.{Bolt}
use duck_duck_xor.Keys.{KeyMap, dh_blind_key, s_tag_key, key_at}
use duck_duck_xor.Preprocess.{InvIndexDocument}
use duck_duck_xor.Tset.{xor_bytes}
use duck_duck_xor.Tset.Values.{values, values_sizes}
use duck_duck_xor.EncIndex.Counter.{new_word_index_counter}
use duck_duck_xor.EncIndex.Counter.History.{run}
use duck_duck_xor.EncIndex.Tuple.{TsetFragment}
use duck_duck_xor.EncIndex.Tuple.Bounds.{element}
use duck_duck_xor.EncIndex.TsetWorker.{State, t_set_worker, t_set_janitor}
use duck_duck_xor.EncIndex.TsetWorker.Word.{Invertible}
use duck_duck_xor.EncIndex.TsetWorker.Places.{
  Place, StoredAt, AllStored, AllStored-append, places, all_calls,
}
use duck_duck_xor.EncIndex.TsetWorker.Document.{KeysFit, t_set_worker-AllStored}
use duck_duck_xor.EncIndex.TsetWorker.Janitor.{end_place, t_set_janitor-AllStored}
use duck_duck_xor.Searcher.{t_set_bucket_key, t_set_writer}
use duck_duck_xor.Searcher.Writer.{
  IsFragment, AllFragments, IsTset, last_written, t_set_writer-gets,
}
use duck_duck_xor.Server.{message, eof, upload_t_set}
use duck_duck_xor.Server.Handlers.{received, Ends, upload_t_set-from}

-- Two slots have the same bucket and label.
unfoldable pub same_slot : Primitives → Place → Place → Bool
same_slot c p q =
    let v = values c p.stag p.index in
    let w = values c q.stag q.index in bytes_eq v.bucket w.bucket && bytes_eq v.label w.label

-- One of the slots is that of `p`.
unfoldable pub taken : Primitives → Place → List Place → Bool
unfolding same_slot
taken c p [] = false
taken c p (q ∷ qs) = same_slot c q p || taken c p qs

-- No two of the slots collide.
abbrev pub AllApart : Primitives → List Place → Type 0
AllApart c [] = Unit {0}
AllApart c (p ∷ ps) = (taken c p ps ≡ false) × AllApart c ps

-- What the store gives for a slot: the end byte, the document and a blinded value, under the pad.
pub record Holds (c : Primitives) (g : Bytes → Bytes → Option Bytes) (p : Place) : Type 0 where
  pub payload : Bytes
  pub y : Bytes
  pub found : g (values c p.stag p.index).bucket (values c p.stag p.index).label ≡ some payload
  pub hides :
      xor_bytes (element (be32 p.doc_id) y p.is_last) (values c p.stag p.index).otp ≡ done payload
  pub y-le : length y ≤ 28

abbrev pub AllHeld : Primitives → (Bytes → Bytes → Option Bytes) → List Place → Type 0
AllHeld c g [] = Unit {0}
AllHeld c g (p ∷ ps) = Holds c g p × AllHeld c g ps

-- The slots of the whole index: those of the documents, and one behind them for each word.
unfoldable pub index_places : Primitives → Bytes → List InvIndexDocument → List Place
index_places c key ds =
    places c key [] ds ++ map (end_place c key) (run (all_calls ds) new_word_index_counter)

StoredAt-IsFragment :
    (c : Primitives) (p : Place) (f : TsetFragment) → StoredAt c p f → IsFragment f
StoredAt-IsFragment c p f s =
    let (b, l, o) = values_sizes c p.stag p.index in
    record {
      bucket_size = ap length s.at_bucket ∙ b;
      label_size = ap length s.at_label ∙ l;
      payload_size = omega (arith, s.same_size, s.y-le);
    }

received-messages : (ts : List TsetFragment) → received (map message ts ++ eof ∷ []) ≡ ts
unfolding received
received-messages [] = refl
received-messages (t ∷ ts) = ap (λ l. t ∷ l) (received-messages ts)

messages-Ends : (ts : List TsetFragment) → Ends (map message ts ++ eof ∷ [])
messages-Ends [] = tt
messages-Ends (t ∷ ts) = messages-Ends ts

upload_all :
    (ts queued : List TsetFragment)
    → upload_t_set (map message ts ++ eof ∷ []) queued ≡ done (queued ++ ts)
upload_all ts queued =
    upload_t_set-from _ queued (messages-Ends ts)
    ∙ ap (λ l. done (queued ++ l)) (received-messages ts)

or_false : (x y : Bool) → (x || y) ≡ false → (x ≡ false) × (y ≡ false)
or_false true y h = absurd (ground arith)
or_false false y h = (refl, h)

module _ (c : Primitives) (D : Bolt) where
  AllStored-AllFragments :
      (ps : List Place) (ts : List TsetFragment) → AllStored c ps ts → AllFragments D ts
  AllStored-AllFragments [] [] h = tt
  AllStored-AllFragments [] (t ∷ ts) h = absurd h
  AllStored-AllFragments (p ∷ ps) [] h = absurd h
  AllStored-AllFragments (p ∷ ps) (t ∷ ts) h =
      (StoredAt-IsFragment c p t h.0, AllStored-AllFragments ps ts h.1)

  -- Fragments for other slots leave a slot alone.
  last_written_kept :
      (p : Place) (ps : List Place) (ts : List TsetFragment) (old : Option Bytes)
      → AllStored c ps ts
      → taken c p ps ≡ false
      → last_written D ts (values c p.stag p.index).bucket (values c p.stag p.index).label old ≡ old
  unfolding last_written taken
  last_written_kept p [] [] old h free = refl
  last_written_kept p [] (t ∷ ts) old h free = absurd h
  last_written_kept p (q ∷ ps) [] old h free = absurd h
  last_written_kept p (q ∷ ps) (t ∷ ts) old h free =
      let v = values c p.stag p.index in
      let (other, free') = or_false (same_slot c q p) (taken c p ps) free in
      let passed : (bytes_eq t.bucket v.bucket && bytes_eq t.label v.label) ≡ false =
        rw (h.0.at_bucket, h.0.at_label) (unfold same_slot in other) in
      ap (last_written D ts v.bucket v.label) (rw passed) ∙ last_written_kept p ps ts old h.1 free'

  all_held :
      (ps : List Place) (ts : List TsetFragment) (g old : Bytes → Bytes → Option Bytes)
      → AllStored c ps ts
      → AllApart c ps
      → ((b l : Bytes) → g b l ≡ last_written D ts b l (old b l))
      → AllHeld c g ps
  unfolding last_written
  all_held [] [] g old h apart e = tt
  all_held [] (t ∷ ts) g old h apart e = absurd h
  all_held (p ∷ ps) [] g old h apart e = absurd h
  all_held (p ∷ ps) (t ∷ ts) g old (s, h) (free, apart) e = (
    record {
      payload = t.payload;
      y = s.y;
      found =
          e _ _
          ∙ last_written_kept p ps ts _ h free
          ∙ (rw (
            s.at_bucket,
            s.at_label,
            bytes_eq_refl (values c p.stag p.index).bucket,
            bytes_eq_refl (values c p.stag p.index).label,
          ));
      hides = s.hides;
      y-le = s.y-le;
    },
    all_held ps ts g
        (λ b l. if bytes_eq t.bucket b && bytes_eq t.label l then some t.payload else old b l) h
        apart e,
  )

  -- With keys of 32 bytes, blinding values that have inverses, a store of the shape of a t-set, and
  -- documents whose slots do not collide: the worker and then the janitor return, the server
  -- acknowledges both streams and queues all fragments in order, and the store that tSetWriter leaves
  -- has the shape of a t-set and gives for every slot of the index (one for each word of each
  -- document, and a last one for each word) the slot's end byte and document under the slot's pad.
  pub index-AllHeld :
      (order : ℕ) (keys : KeyMap) (ds : List InvIndexDocument) (db : D.Db)
      → KeysFit keys
      → Invertible c order (key_at keys dh_blind_key)
      → IsTset D db
      → AllApart c (index_places c (key_at keys s_tag_key) ds)
      → (s : State) × (last : List TsetFragment) × (t_set_worker c order keys new_word_index_counter
            ds
          ≡ done s)
        × (t_set_janitor c order keys s.counter ≡ done last)
        × (upload_t_set (map message s.sent ++ eof ∷ []) [] ≡ done s.sent)
        × (upload_t_set (map message last ++ eof ∷ []) s.sent ≡ done (s.sent ++ last))
        × IsTset D (t_set_writer D (s.sent ++ last) db)
        × AllHeld c
            (λ b l. D.get (t_set_writer D (s.sent ++ last) db) (t_set_bucket_key ∷ b ∷ []) l)
            (index_places c (key_at keys s_tag_key) ds)
  unfolding index_places
  index-AllHeld order keys ds db fit inv shape apart =
      let key = key_at keys s_tag_key in
      let (s, e, stored, counted) = t_set_worker-AllStored c order keys ds fit inv in
      let (last, e', ends) = t_set_janitor-AllStored c order keys s.counter fit inv in
      let ends' : AllStored c (map (end_place c key) (run (all_calls ds) new_word_index_counter))
          last =
        subst (λ w. AllStored c (map (end_place c key) w) last) counted ends in
      let all = AllStored-append c (places c key [] ds) _ s.sent last stored ends' in
      let (shape', gets) =
        t_set_writer-gets D (s.sent ++ last) db (AllStored-AllFragments _ _ all) shape in
      (
        s,
        last,
        e,
        e',
        upload_all s.sent [],
        upload_all last s.sent,
        shape',
        all_held _ _ _ (λ b l. D.get db (t_set_bucket_key ∷ b ∷ []) l) all apart gets,
      )
