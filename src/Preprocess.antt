-- ===== src/Preprocess.antt =====
-- client_proxy/doc_preprocesser.go and the document of client_proxy/corpus_reader.go: reading a
-- file, cutting it into words, and the copies for the four consumers. ParseTokens works on the list of
-- the code points of a text; the encoding and the tables are a parameter.
pub mod Tokens
pub mod Partition
use duck_duck_xor.Base.{
  ℕ, Bool, false, ◌&&◌, ◌||◌, not, List, [], ◌∷◌, ◌++◌, map, ◌==◌, if◌then◌else◌, length, drop,
  Bytes, bytes_eq,
}

-- Packages unicode and utf8: a string's code points, the bytes of some code points, and the tables.
pub record Unicode : Type 0 where
  pub decode : Bytes → List ℕ
  pub encode : List ℕ → Bytes
  pub to_lower : ℕ → ℕ
  pub is_letter : ℕ → Bool
  pub is_number : ℕ → Bool

-- document of client_proxy/corpus_reader.go: the content of the open file, up to an error of reading
-- it, the read position, and whether reading or closing the file returns an error, as for a nil file.
pub record Document : Type 0 where
  pub content : Bytes
  pub position : ℕ
  pub doc_id : ℕ
  pub faulty : Bool

-- io.Copy from the file: what stands behind the position, and the file at its end.
unfoldable pub read_rest : Document → Bytes × Document
read_rest d = (drop d.position d.content, record d { position = length d.content })

-- InvIndexDocument; the words are in the order in which the map is walked.
pub record InvIndexDocument : Type 0 where
  pub words : List Bytes
  pub doc_id : ℕ

-- The word that a separator or the end of the text closes; `current` is in reverse.
unfoldable pub close_field : Bytes → Bytes → List Bytes → List Bytes
close_field [] current fields = if length current == 0 then fields else current ∷ fields
close_field (c ∷ rest) current fields = close_field rest (c ∷ current) fields

-- strings.FieldsFunc: the maximal runs of code points that do not satisfy `f`.
unfoldable pub fields_func : (ℕ → Bool) → Bytes → Bytes → List Bytes
unfolding close_field
fields_func f current [] = close_field current [] []
fields_func f current (c ∷ rest) =
    let closed = close_field current [] (fields_func f [] rest) in
    let grown = fields_func f (c ∷ current) rest in if f c then closed else grown

-- The runes at which ParseTokens cuts.
unfoldable pub separates : Unicode → ℕ → Bool
separates u c = not (u.is_letter c) && not (u.is_number c)

-- ParseTokens, on code points.
unfoldable pub parse_tokens : Unicode → Bytes → List Bytes
unfolding fields_func separates
parse_tokens u s = fields_func (separates u) [] (map u.to_lower s)

-- ParseTokens of a string. A byte that is no code point decodes to one that separates.
unfoldable pub parse_text : Unicode → Bytes → List Bytes
unfolding parse_tokens
parse_text u text = map u.encode (parse_tokens u (u.decode text))

unfoldable pub contains : Bytes → List Bytes → Bool
contains w [] = false
contains w (v ∷ vs) = bytes_eq v w || contains w vs

-- The keys of the map that the loop of partitionStreams fills.
unfoldable pub word_set : List Bytes → List Bytes → List Bytes
unfolding contains
word_set seen [] = seen
word_set seen (token ∷ tokens) =
    word_set (if contains token seen then seen else seen ++ token ∷ []) tokens

-- What partitionStreams does for one document, in this order: whether it calls abort for an error of
-- io.Copy, behind which it goes on with what was read, and what it sends.
pub record Copies : Type 0 where
  pub aborts : Bool
  pub tf_out : List Bytes
  pub inv_index_out : InvIndexDocument
  pub key_word_summer_out : InvIndexDocument
  pub doc_encrypt_out : Document

-- The loop body of partitionStreams.
unfoldable pub partition_document : Unicode → Document → Copies
unfolding read_rest word_set parse_text
partition_document u doc =
    let (text, doc') = read_rest doc in
    let tokens = parse_text u text in
    let inv_ind_doc : InvIndexDocument = record {
      words = word_set [] tokens;
      doc_id = doc.doc_id;
    } in
    record {
      aborts = doc.faulty;
      tf_out = tokens;
      inv_index_out = inv_ind_doc;
      key_word_summer_out = inv_ind_doc;
      doc_encrypt_out = doc';
    }

-- partitionStreams, from its start to the close of its input.
unfoldable pub partition_streams : Unicode → List Document → List Copies
partition_streams u docs = map (partition_document u) docs
