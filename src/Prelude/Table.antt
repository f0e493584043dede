-- ===== src/Prelude/Table.antt =====
-- A table of the database is the list of its rows in the order of their ids. The statements that
-- the program runs are functions on it: SELECT … WHERE, UPDATE … WHERE, DELETE … WHERE, ORDER BY.
mod Statements
mod Laws
mod Order
mod Fetch
pub use Statements.*
pub use Order.*
pub use Fetch.*
pub use Laws.*
