-- ===== src/EncIndex/TsetWorker/Janitor.antt =====
-- tSetJanitor: the last tuple of each word.
use duck_duck_xor.Base.{ℕ, ◌+◌, ◌≡◌, refl}
use duck_duck_xor.Base.{true, List, [], ◌∷◌, ◌++◌, map}
use duck_duck_xor.Base.{Bytes, u32}
use duck_duck_xor.Base.{done}
use mathlib.Core.Path.{subst}
use duck_duck_xor.Crypto.{Primitives}
use duck_duck_xor.Keys.{KeyMap, key_at, dh_blind_key, s_tag_key}
use duck_duck_xor.EncIndex.Counter.{IndexDocPair, WordIndexCounter}
use duck_duck_xor.EncIndex.Tuple.{TsetFragment}
use duck_duck_xor.EncIndex.TsetWorker.{Prfs, janitor_words, t_set_janitor, reset_prfs}
use duck_duck_xor.EncIndex.TsetWorker.Word.{Invertible, make_tuple-Stores}
use duck_duck_xor.EncIndex.TsetWorker.Places.{Place, StoredAt, AllStored, Stores-StoredAt}
use duck_duck_xor.EncIndex.TsetWorker.Document.{
  KeysFit, fresh_prfs, new_prfs-fresh, nothing_written,
}

-- The slot behind the last document of a word, which its end tuple takes with that document again.
unfoldable pub end_place : Primitives → Bytes → Bytes × IndexDocPair → Place
end_place c key (word, pair) = record {
  stag = c.mac key word;
  index = u32 (pair.count + 1);
  doc_id = pair.last_id;
  is_last = true;
}

janitor_words-AllStored :
    (c : Primitives) (order : ℕ) (p : Prfs) (ws : List (Bytes × IndexDocPair))
    → Invertible c order p.blind.key
    → reset_prfs p ≡ p
    → (sent : List TsetFragment) × (janitor_words c order p ws ≡ done sent)
      × AllStored c (map (end_place c p.s_tag.key) ws) sent
unfolding janitor_words end_place reset_prfs
janitor_words-AllStored c order p [] inv fresh = ([], refl, tt)
janitor_words-AllStored c order p ((word, pair) ∷ ws) inv fresh =
    let (f, made, stores) =
      make_tuple-Stores c order p word pair.count (u32 (pair.count + 1)) pair.last_id true inv in
    let (sent, e, all) = janitor_words-AllStored c order p ws inv fresh in
    let at_end : Bytes → Place = λ w. record {
      stag = c.mac p.s_tag.key (w ++ word);
      index = u32 (pair.count + 1);
      doc_id = pair.last_id;
      is_last = true;
    } in
    (
      f ∷ sent,
      rw made (rw fresh (rw e)),
      (
        subst (λ w. StoredAt c (at_end w) f) (nothing_written p fresh) (Stores-StoredAt stores),
        all,
      ),
    )

-- With keys of 32 bytes and blinding values that have inverses, tSetJanitor returns for any
-- counter. For each word it sends one fragment, in the slot of the word's own stag behind the
-- counted documents, with the end byte 1 and the word's last document.
pub t_set_janitor-AllStored :
    (c : Primitives) (order : ℕ) (keys : KeyMap) (counter : WordIndexCounter)
    → KeysFit keys
    → Invertible c order (key_at keys dh_blind_key)
    → (sent : List TsetFragment) × (t_set_janitor c order keys counter ≡ done sent)
      × AllStored c (map (end_place c (key_at keys s_tag_key)) counter) sent
unfolding t_set_janitor
t_set_janitor-AllStored c order keys counter fit inv =
    let (sent, e, all) =
      janitor_words-AllStored c order (fresh_prfs keys) counter inv (unfold reset_prfs in refl) in
    (sent, rw (new_prfs-fresh c keys fit) e, all)
