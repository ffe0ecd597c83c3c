-- ===== src/Pipeline.antt =====
-- The components at work together: from the client's documents to the server's store.
pub mod Index
pub mod Documents
pub mod Walk
pub mod XSet
pub mod Sends
pub mod Wordless
pub mod Query
