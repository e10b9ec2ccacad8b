-- ===== src/Database/Sql.antt =====
-- The statements that DatabaseThread.cpp puts together, as the texts that its streams hold. The
-- arguments are the values that are streamed in; texts of a request stand in quotes as they came.
pub mod Sessions
pub mod Accounts
pub mod Players
pub mod Items
pub mod Shops
pub mod Servers
unfoldable pub use Sessions.*
unfoldable pub use Accounts.*
unfoldable pub use Players.*
unfoldable pub use Items.*
unfoldable pub use Shops.*
unfoldable pub use Servers.*
