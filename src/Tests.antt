-- ===== src/Tests.antt =====
-- The theorems at concrete inputs.
pub mod Data
mod Tset
mod EncIndex
mod XSet
mod Blooms
mod Searcher
mod Documents
mod Keys
mod TfCalc
mod TfNetwork
mod Sends
mod Shutdown
mod BloomWorkers
mod Encrypters
mod Lifecycle
mod Client
mod Corpus
mod Stored
mod Pipeline
