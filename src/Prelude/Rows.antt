-- ===== src/Prelude/Rows.antt =====
-- Tables as lists of rows: the statements of SQL, and their laws.
mod Defs
mod Laws
mod Counts
mod Updates
unfoldable pub use Defs.{
  select, find_row, update_where, count_where, sum_where, delete_where, exists_row, order_by,
  insert_by,
}
pub use Laws.*
pub use Counts.*
pub use Updates.*
