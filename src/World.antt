-- ===== src/World.antt =====
-- What the processes share: the tables of Postgres, the keys of Redis, the clock, and the answers
-- that the two servers will give.
mod Rows
mod Table
mod Keys
mod Answer
pub mod Tx
pub mod TxRules
mod Exec
pub mod TableLaws
pub mod OrderLaws
pub mod Keeps
pub use Rows.*
pub use Table.*
pub use Keys.*
pub use Answer.*
unfoldable pub use Exec.*
