-- ===== src/Client/Search.antt =====
-- What a search on the client comes to.
use duck_duck_xor.Base.{ℕ, zero, suc, ◌≡◌, refl, ◌≢◌, inr}
use duck_duck_xor.Base.{Option, some, List, [], ◌∷◌, ◌++◌, arith}
use duck_duck_xor.Base.{length, take}
use duck_duck_xor.Base.{Bytes, be32, be_uint32}
use duck_duck_xor.Base.{Outcome, done, panic, ◌>>=◌, >>=-eq-done}
use duck_duck_xor.Crypto.{Primitives, new_prf}
use duck_duck_xor.Keys.{KeyMap, s_tag_key, key_at}
use duck_duck_xor.Keys.Setup.{SecretKey, fetch_s_tag_key, handle_request}
use duck_duck_xor.DocDb.{CipherDoc}
use duck_duck_xor.Preprocess.{InvIndexDocument}
use duck_duck_xor.Tset.{xor_bytes}
use duck_duck_xor.Tset.Values.{values}
use duck_duck_xor.EncIndex.Tuple.{TsetFragment}
use duck_duck_xor.EncIndex.TsetWorker.Places.{Place, StoredAt}
use duck_duck_xor.EncIndex.TsetWorker.Reference.{reference_slot}
use duck_duck_xor.Searcher.{TupleData, read_tuple}
use duck_duck_xor.Searcher.Fetcher.{client_meta, read_tuple-StoredAt}
use duck_duck_xor.Server.{Event}
use duck_duck_xor.Client.{
  encrypt_query, request_search, decrypt_doc_info, send_fetch_requests, receive_docs, search_docs,
}

-- The stag that a search asks for is the stag of the word's slots in the protocol, for every
-- document and every history.
pub encrypt_query-reference_slot :
    (c : Primitives) (keys : KeyMap) (k word : Bytes) (seen : List InvIndexDocument) (doc_id : ℕ)
    → keys s_tag_key ≡ some k
    → length k ≡ 32
    → encrypt_query c keys word
      ≡ done (reference_slot c (key_at keys s_tag_key) seen doc_id word).stag
unfolding encrypt_query key_at
encrypt_query-reference_slot c keys k word seen doc_id has size =
    let fetched : fetch_s_tag_key keys ≡ done k = rw (fetch_s_tag_key, handle_request, has) in
    let keyed : new_prf c k ≡ done (record { key = k; written = [] }) =
      unfold new_prf in rw (c.valid_key_sizes k (inr size)) in
    let same : key_at keys s_tag_key ≡ k = rw (key_at, has) in rw (fetched, ◌>>=◌, keyed, same)

>>=-never_done {ℓ κ} :
    {A : Type ℓ} {B : Type κ} (m : Outcome A) (f : A → Outcome B) (r : B)
    → ((a : A) → f a ≢ done r)
    → (m >>= f) ≢ done r
>>=-never_done m f r never = λ h. let (a, e, h') = >>=-eq-done m f h in never a h'

send_fetch_requests-never_done :
    (fuel : ℕ) (docs : List (Option Bytes)) (sent r : List ℕ)
    → send_fetch_requests fuel docs sent ≢ done r
unfolding send_fetch_requests
send_fetch_requests-never_done zero docs sent r = λ h. absurd (ground arith)
send_fetch_requests-never_done (suc fuel) [] sent r = send_fetch_requests-never_done fuel [] sent r
send_fetch_requests-never_done (suc fuel) (doc ∷ docs) sent r =
    >>=-never_done (decrypt_doc_info doc) _ r
      (λ i. send_fetch_requests-never_done fuel docs (sent ++ i ∷ []) r)

-- A search never returns to the user, however long it runs, whatever the server answers, and
-- whatever documents it would send: the loop that asks for the documents does not end, so the
-- goroutine that receives them is never started.
pub search_docs-never_done :
    (crypto_key : Bytes → SecretKey) (fuel : ℕ) (infos : List (Event Bytes))
    (docs : List (Event CipherDoc)) (r : List Bytes)
    → search_docs crypto_key fuel infos docs ≢ done r
unfolding search_docs
search_docs-never_done crypto_key fuel infos docs r = λ h.
    let (sent, looped, e) =
      >>=-eq-done (send_fetch_requests fuel (request_search infos).0 [])
        (λ _. receive_docs crypto_key docs []) h in
    send_fetch_requests-never_done fuel (request_search infos).0 [] sent looped

-- The identifier that the server reads from a stored tuple of full size makes the client panic:
-- it has three bytes, and the client reads four.
pub decrypt_doc_info-StoredAt :
    (c : Primitives) (p : Place) (f : TsetFragment) (s : StoredAt c p f) (index : ℕ)
    → length s.y ≡ 28
    → (t : TupleData) × ((xor_bytes (values c p.stag p.index).otp f.payload >>= λ d.
          read_tuple client_meta index d)
        ≡ done t)
      × (decrypt_doc_info t.e_id ≡ panic)
decrypt_doc_info-StoredAt c p f s index full =
    let (v, e, n) = read_tuple-StoredAt c p f s index full in
    (
      record {
        e_id = some (take 3 (be32 p.doc_id));
        blinding_val = some v;
        worker_index = index;
        is_last = p.is_last;
      },
      e,
      unfold decrypt_doc_info be32 be_uint32 in refl,
    )
