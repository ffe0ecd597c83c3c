-- ===== src/EncIndex.antt =====
-- client_proxy/encrypted_index.go: the generator of the encrypted index.
pub mod Counter
pub mod Tuple
pub mod TsetWorker
pub mod XsetWorker
pub mod Streams
