-- ===== src/Pipeline/Walk.antt =====
-- The documents from the walk of the corpus reader, through its goroutines and those of the document
-- streamer with one encrypter, to the server's store.
use duck_duck_xor.Base.{◌^◌, ◌<◌, ◌≡◌, sym, ap, ◌∙◌}
use duck_duck_xor.Base.{true, Option, List, [], ◌∷◌, ◌++◌, map, arith}
use duck_duck_xor.Base.{Inevitably, Inevitably-map, length}
use duck_duck_xor.Base.{Bytes}
use duck_duck_xor.Base.{done}
use mathlib.Core.Path.{subst}
use duck_duck_xor.Bolt.{Bolt}
use duck_duck_xor.Keys.Setup.{SecretKey}
use duck_duck_xor.Preprocess.{Unicode, Document, partition_document}
use duck_duck_xor.CorpusReader.{Visit, document_reader, directory_walker}
use duck_duck_xor.CorpusReader.Network.{start_walk}
use duck_duck_xor.CorpusReader.Network
use duck_duck_xor.CorpusReader.Network.Files.{all_readable}
use duck_duck_xor.CorpusReader.Network.Ends.{AllSent, start_walk-AllSent}
use duck_duck_xor.ErrorHandler.{new_error_handler, collect_stop_funcs}
use duck_duck_xor.DocEncrypter.Pool.{start_streamer}
use duck_duck_xor.DocEncrypter.Pool
use duck_duck_xor.DocEncrypter.Pool.Uploads.{AllUploaded, start_streamer-AllUploaded}
use duck_duck_xor.DocDb.{CipherDoc, doc_bucket_key, le32, write_handler}
use duck_duck_xor.DocDb.Store.{IsDocs}
use duck_duck_xor.Server.{message, eof, upload_cipher_docs}
use duck_duck_xor.Pipeline.Documents.{
  AllEncrypt, handed-NoneAborts, AllRead, AllShort, sent_docs, document_reader-AllRead,
}

module _ (u : Unicode) (doc_key : SecretKey) (D : Bolt) (db : D.Db) where
  -- The server acknowledges the stream and queues it in order, and what its store then gives for the
  -- documents decrypts under the key of the streamer to them without their first byte.
  pub record IsKept (docs : List Document) (sent : List CipherDoc) : Type 0 where
    pub acknowledged : upload_cipher_docs (map message sent ++ eof ∷ []) [] ≡ done sent
    pub readable :
        AllRead doc_key (λ id. D.get (write_handler D sent db) (doc_bucket_key ∷ []) (le32 id)) docs

  -- Every run of a streamer with one encrypter on the documents ends without a panic, and what
  -- docUploader has sent is kept.
  abbrev pub Streams : List Document → Type 0
  Streams docs =
      Inevitably (Pool.Step doc_key) Pool.Panics (λ t. IsKept docs t.uploaded)
        (start_streamer 1 (map (λ d. (partition_document u d).doc_encrypt_out) docs))

  module _ (open_file : Bytes → Option Bytes) where
    document_reader-Streams :
        (paths : List Bytes)
        → IsDocs D db
        → length paths < 2 ^ 32
        → AllShort open_file paths
        → AllEncrypt doc_key 0 (document_reader open_file 0 paths)
        → Streams (document_reader open_file 0 paths)
    unfolding sent_docs
    document_reader-Streams paths shape fit short h =
        let docs = document_reader open_file 0 paths in
        let handed = map (λ d. (partition_document u d).doc_encrypt_out) docs in
        let (sent, same, acknowledged, read) =
          document_reader-AllRead u doc_key D open_file 0 paths db shape fit short h in
        Inevitably-map (Pool.Step doc_key) Pool.Panics (AllUploaded doc_key handed)
          (λ t. IsKept docs t.uploaded)
          (λ t is.
            subst (IsKept docs) (sym (is.every_doc ∙ same))
              (record { acknowledged = acknowledged; readable = read }))
          _ (start_streamer-AllUploaded doc_key handed (handed-NoneAborts u doc_key 0 docs h))

    -- In a store where the bucket of the documents holds no buckets, if Walk looks up every path, every
    -- file opens with a content below 2 ^ 31 - 42 bytes and encrypts without an error, and the walker
    -- sends fewer than 2 ^ 32 paths: every run of the corpus reader, whatever the order of its steps,
    -- ends without a panic, and on the documents that have then been received every run of the
    -- streamer with one encrypter and a stream to the server that takes every document ends without a
    -- panic, the server acknowledges what was sent, and what
    -- its store gives for each identifier decrypts under the streamer's key to the file without its
    -- first byte.
    pub start_walk-Streams :
        {F E : Type 0} (error_of : Bytes → E) (fs : List F) (visits : List Visit)
        (paths : List Bytes)
        → IsDocs D db
        → all_readable open_file visits ≡ true
        → directory_walker visits ≡ done paths
        → length paths < 2 ^ 32
        → AllShort open_file paths
        → AllEncrypt doc_key 0 (document_reader open_file 0 paths)
        → Inevitably
            (Network.Step open_file error_of)
            Network.Panics
            (λ s. (s.received ≡ document_reader open_file 0 paths) × Streams s.received)
            (start_walk (collect_stop_funcs fs new_error_handler) visits)
    start_walk-Streams error_of fs visits paths shape ok walked fit short h =
        let (paths', walked', run) = start_walk-AllSent open_file error_of fs visits ok in
        let same : paths' ≡ paths = ground (arith, walked, walked') in
        Inevitably-map (Network.Step open_file error_of) Network.Panics
          (AllSent open_file error_of paths')
          (λ s. (s.received ≡ document_reader open_file 0 paths) × Streams s.received)
          (λ s is.
            let e = is.every_doc ∙ ap (document_reader open_file 0) same in
            (e, subst Streams (sym e) (document_reader-Streams paths shape fit short h)))
          _ run
