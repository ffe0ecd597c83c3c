-- ===== src/Tset/DocId.antt =====
-- Document identifiers as four big-endian bytes.
use duck_duck_xor.Base.{ℕ, ap, ◌<◌, ◌^◌, ◌≡◌, Bytes, done, arith, be32, be_uint32}
use duck_duck_xor.Crypto.{Prf}
use duck_duck_xor.Tset.{permute_doc_id, unpermute_doc_id}

-- The identifier of a uint32 is read back, whatever words and hashes the two calls are given.
pub unpermute_doc_id-permute_doc_id :
    (word word' : Bytes) (prf prf' : Prf) (id : ℕ)
    → id < 2 ^ 32
    → unpermute_doc_id word' prf' (permute_doc_id word prf id) ≡ done id
unfolding permute_doc_id unpermute_doc_id be32 be_uint32
unpermute_doc_id-permute_doc_id word word' prf prf' id h = ap done (omega arith)
