-- ===== src/Store.antt =====
-- The database that the services share, and a request handler as an action on it.
mod Market
mod Accounts
mod Leases
mod Schema
mod Monad
mod Queries
mod Transactions
pub use Market.*
pub use Accounts.*
pub use Leases.*
pub use Schema.*
pub use Monad.*
pub use Queries.*
pub use Transactions.*
