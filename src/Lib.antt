-- ===== src/Lib.antt =====
-- DuckDuckXor: searchable symmetric encryption, a client that indexes documents and a server that
-- stores and searches the encrypted index.
--
-- The client (client_proxy/) reads documents, cuts them into words, and from each document's set of
-- words makes t-set tuples, which it sends to the server, and xtags, which it puts in a bloom filter.
-- Behind the last document a janitor sends one closing tuple per word. The server (server/) writes
-- tuples and encrypted documents to a store, and answers a search for a stag by reading the slots of
-- the stag in batches until it meets the closing tuple.
--
-- Base: the shared types. Outcome is the result of code that may panic or wait for ever: done,
--   panic, blocked. Numbers are the native ones; a uint32 is taken modulo 2 ^ 32 by u32, and a
--   slice index out of range is a panic.
-- Crypto: CMAC and SHA-512 as parameters (Primitives) with the sizes that they promise, and a hash
--   in use (Prf), a key and what has been written since the last reset.
-- Bolt: the store as a parameter, an interface with the laws of buckets, values and read-only
--   transactions that the library promises. A place is the list of the names of nested buckets.
--   Root has the transaction that both programs use most: make a bucket of the root, put a value.
-- Tset: crypto/tset.go. calc_tset_vals is CalcTsetVals, xor_bytes is XorBytes, and so on.
-- EncIndex: client_proxy/encrypted_index.go. Counter is wordIndexCounter over an association list,
--   and Counter.Workers has several workers on it as an interleaving of their calls;
--   Tuple has computeBlindingValue, computeXind, computeBlindedXind and calcTsetTuple; TsetWorker
--   has tSetWorker and tSetJanitor, XsetWorker has xSetWorker. A worker is a function of the list of
--   documents that it receives, and returns what it sends. A set of words is the list in which the
--   range loop meets it. TsetWorker.Reference has the slots as the protocol describes them.
--   Streams has chanSplitter and bloomStreamer. XsetWorker.Sends has the goroutines that send the
--   batches of xtags, the count pendingXSends and the closing of finishedXtags as a step relation.
-- Preprocess: client_proxy/doc_preprocesser.go: ParseTokens and partitionStreams. The encoding
--   of strings and unicode's functions are a parameter (Unicode).
-- Bloom: client_proxy/bloom_master.go: bloomWorker and its handlers over the list of messages that
--   arrive, xFilterUploader, queryHandler, and the calls that queue messages. The bloom filter
--   library is a parameter (BloomLib), with no false negatives as its law. Saver has freqBloomSaver
--   and loadFiltersFromDb over the store. Workers has several bloomWorkers on the messages of the X-Set
--   as a step relation.
-- Indexer: client_proxy/index.go: totalKeyWordSummer, and the X-Set over the three components.
-- Keys: client_proxy/key_manager.go: inverseHashTreeKeyDerivation and the map of keys. Setup has
--   updateKeyMap, storeEncryptedKeys, loadDBKeys, encryptChildKeys and the requests for keys, over
--   the cipher of the master key as a parameter (SecretKey). Manager has NewKeyManager with its two
--   setups; the library snacl is a parameter (Snacl).
-- CorpusReader: client_proxy/corpus_reader.go: DirectoryWalker over what filepath.Walk visits, NextDocId
--   and DocumentReader. Network has the two goroutines and the error handler as a step relation: Files
--   for the paths of a walk, Reading for what every state keeps, Progress for the next step.
-- DocEncrypter: client_proxy/doc_encrypter.go: docEncrypter and docUploader; Pool has the encrypters that
--   share the channel encryptedDocs, and the uploader, as a step relation.
-- ErrorHandler: client_proxy/error_handler.go: the abort function, handleErrors, collectStopFuncs and
--   handleOSCalls.
-- Client: client_proxy/client.go: Search and its goroutines, over what the server answers. Its key for the
--   documents is the array of zeros, since docKey is never set.
-- Lifecycle: the goroutines of client_proxy. Index has the Start functions and Index of
--   client_proxy/index.go up to its Wait, and the state after it is a Process: the WaitGroups and the
--   goroutines that run. Wait has the runs as a step relation; Guards has Start and Stop as calls on
--   the counters `started` and `shutdown`, for the components of the server too.
-- Pipeline: the components together. Index follows the t-set from tSetWorker and tSetJanitor over
--   UploadTSet to tSetWriter, Documents follows the files from DocumentReader over docEncrypter,
--   docUploader and UploadCipherDocs to writeHandler, Walk with the goroutines of the corpus reader and
--   of the document streamer, and XSet follows the xtags from chanSplitter and
--   totalKeyWordSummer over xSetWorker and bloomStreamer to the uploader of the bloom master, Sends
--   with the batches in any order, Wordless with an empty one. Query has the stag of a query against the slots of the index.
-- TfCalc: client_proxy/tf_calc.go: frequencyWorker, shuffler, reducer, calculateBucketSizes,
--   bloomFilterInitializer and populateBloomFilters, over what each receives; the hash FNV-1a is a
--   parameter. Network has the goroutines of a started calculator and their channels as a step
--   relation: Counts for what they hold of a word, Order for the closing of the channels, Progress and
--   Measure for the end of every run, Mappers for more than one mapper.
-- Searcher: server/encrypted_searcher.go: tSetWriter, tupleFetcher and tSetReader. The order in which
--   the goroutines of a batch answer is a parameter. Startup has Start, the meta data, PutXSetFilter
--   and loadXSetFilterFromDb.
-- DocDb: server/doc_db.go: readHandler and writeHandler.
-- Server: server/server.go: the streaming calls, over the list of what Recv returns. Shutdown has the
--   goroutines of the document database and of the searcher with their WaitGroup, from Start to the
--   return of Stop, as a step relation.
-- Inverted: client_proxy/inverted_index.go: finalIndexEntriesWorker, finalIndexShuffler and reducer over
--   what they receive. No other component starts them, and no map would come to a shuffler, since every
--   worker waits at the nil channel finalCounterEntries.
-- Tests: the theorems at concrete inputs, with primitives, a store and a filter that run.
--
-- Loops. The loops over channels and sets are recursion on lists. derive_loop has fuel, one round
-- more than the number of keys, since each round derives two. find_inverse tries the candidates below
-- the modulus, so its fuel is the modulus. read_batches has fuel for the batches of a search, and
-- send_fetch_requests for the rounds of a loop that never ends.
--
-- Runs. A step relation has one constructor for each operation of a goroutine; a send on an unbuffered
-- channel and its receive are one step. Inevitably (Base.Runs) says of a state that every run from it
-- comes to an end of a kind with no panic and no deadlock before; a busy loop that only looks again is
-- no step.
--
-- Not modelled: goroutines of one component that work on shared data at the same time, but for the
-- counter, the order of answers in a batch and the step relations named above; network and files, for
-- which parameters stand, and a failing stream in docUploader; the main functions; how the goroutines of
-- client_proxy/inverted_index.go end; ddx/cli.go; and the generated code of protos/sse.pb.go but for
-- the messages.
pub mod Base
pub mod Crypto
pub mod Bolt
pub mod Keys
pub mod Preprocess
pub mod Bloom
pub mod Tset
pub mod EncIndex
pub mod Searcher
pub mod DocDb
pub mod Server
pub mod Indexer
pub mod TfCalc
pub mod DocEncrypter
pub mod ErrorHandler
pub mod Client
pub mod CorpusReader
pub mod Lifecycle
pub mod Pipeline
pub mod Tests
pub mod Inverted
