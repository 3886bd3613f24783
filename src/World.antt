-- ===== src/World.antt =====
-- What the service stands on: the tables of the store, the calls to the outside, and the answers
-- that those calls get. Every outside call has a number, and `Env` says what each of them answers,
-- so a theorem over an `Env` covers every sequence of failures.
mod Monad
pub mod Rows
pub use Monad.*
