-- ===== src/Store.antt =====
-- core/store.py: `TaskStore`, over the two tables. Each method is one transaction: it returns its
-- result and the tables after it, and a method that raises leaves them as they were. `utcnow()` and
-- `uuid4().hex` are arguments. The JSON columns hold the values that `json.loads` gives back.
pub mod Table
pub mod Columns
mod Tasks
mod Terminal
mod Queries
pub mod Rows
pub mod Endings
pub mod Claim
pub mod History
unfoldable pub use Tasks.*
unfoldable pub use Terminal.*
unfoldable pub use Queries.*
