-- ===== src/Redb.antt =====
-- src/catalog/redb.rs: the embedded registry. Each operation is one or two transactions over the
-- registry: reads that check, and one write transaction, which redb runs alone and which leaves the
-- registry as it was when it fails. Failures of the database itself and of the encoding of records
-- are left out, and so are messages: an error is its kind.
pub mod Maps
pub mod Keys
pub mod State
pub mod Namespaces
pub mod Tables
pub mod Views
pub mod Commit
pub mod Writes
pub mod Orphans
pub mod Pages
mod Examples
