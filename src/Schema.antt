-- ===== src/Schema.antt =====
-- The database of packages/database/prisma/schema.prisma: its enums, its rows and its tables.
-- A table is the list of its rows, the newest first. Ids are opaque values that are only
-- compared, so they are numbers; a time is a number of milliseconds.
pub mod Enums
pub mod Records
pub mod Rows
pub mod Tables
pub mod Action
pub use Enums.*
pub use Records.*
unfoldable pub use Rows.*
unfoldable pub use Action.*
