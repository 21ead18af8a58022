-- ===== src/Db.antt =====
-- hexstody-db/src/queries.rs and hexstody-db/src/lib.rs: the chain of updates in the database, and
-- the worker that applies updates one by one. Query and Worker take a row as the update that it
-- decodes to, and Rows is about the decoding.
pub mod Query
pub mod Worker
pub mod Rows
