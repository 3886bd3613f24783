-- ===== src/Postgres.antt =====
-- internal/adapters/postgres and its wrapper internal/repo: the repositories of batches and jobs.
-- A statement is one outside call: it fails as `Env.store_fault` says, and then changes nothing, or
-- it takes effect as a whole. Rows come in the order of the table, since the queries have no ORDER
-- BY; an UPDATE leaves a row in its place.
pub mod Tables
pub mod TxColumn
pub mod Convert
pub mod Repositories
pub mod Calls
pub mod RoundTrip
pub mod Sweep
pub mod Marked
pub mod Listing
pub mod Stats
