-- ===== src/Domain.antt =====
-- hexstody-api/src/domain and the shared parts of hexstody-api/src/types.rs: the vocabulary of the
-- custody.
pub mod Currency
pub mod Profile
pub mod Types
pub mod Requests
pub mod Error
pub mod Names
