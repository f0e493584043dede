-- ===== src/Store.antt =====
-- ragra/db/repo.py: the data access layer, over the rows of Store/Rows.
--
-- A `Db` is the connected database. A function of repo.py that writes takes it last and returns the
-- new one, beside its result. Every reading of the clock within one call (`now_iso()`) is the
-- argument `clock`; `commit` has no counterpart, since the calls run one after the other on one
-- connection.
pub mod Rows
mod State
pub mod History
pub mod Reminders
pub mod Due
pub mod Chat
pub mod Courses
pub mod Upsert
pub mod Tasks
pub mod Strip
pub mod Manual
pub mod Syncs
pub mod Tenant
pub mod Steps
pub mod Overdue
pub mod Again
pub mod Boundary
pub mod Events
pub mod Classes
pub mod Meetings
unfoldable pub use Rows.*
unfoldable pub use State.*
