-- ===== src/CorpusReader.antt =====
-- client_proxy/corpus_reader.go: the walk over the directory, the documents and their identifiers.
-- What filepath.Walk visits is a parameter.
pub mod Network
use duck_duck_xor.Base.{
  ℕ, ◌+◌, Bool, Option, none, some, List, [], ◌∷◌, if◌then◌else◌, Outcome, done, deref, ◌>>=◌, true,
  false, Bytes, u32,
}
use duck_duck_xor.Keys.Setup.{or_nil}
use duck_duck_xor.Preprocess.{Document}

-- NextDocId, which is both the new counter and the result.
abbrev pub next_doc_id : ℕ → ℕ
next_doc_id n = u32 (n + 1)

-- DocumentReader over the paths that arrive. `open_file` is os.Open; after the abort for an error of
-- it a nil file is sent, from which nothing is read; a file that opens is read and closed without an
-- error.
unfoldable pub document_reader : (Bytes → Option Bytes) → ℕ → List Bytes → List Document
document_reader open_file n [] = []
document_reader open_file n (file_path ∷ paths) =
    let doc_id = next_doc_id n in
    record {
      content = or_nil (open_file file_path);
      position = 0;
      doc_id = doc_id;
      faulty = elim (open_file file_path) [ none ↦ true | some content ↦ false ];
    }
    ∷ document_reader open_file doc_id paths

-- A call of the function that filepath.Walk gets: the path, and of its os.FileInfo what IsDir says;
-- `none` is the nil that Walk passes for a path that it cannot look up.
pub record Visit : Type 0 where
  pub path : Bytes
  pub info : Option Bool

-- DirectoryWalker over the visits in their order: the paths that it sends before it closes outPaths.
-- IsDir of nil panics.
unfoldable pub directory_walker : List Visit → Outcome (List Bytes)
directory_walker [] = done []
directory_walker (v ∷ visits) = do
  is_dir ← deref v.info
  paths ← directory_walker visits
  done (if is_dir then paths else v.path ∷ paths)
