-- ===== src/Parser.antt =====
-- internal/parser: the columns of a sheet and the rows under them. `ReadFirstSheet` hands the work to
-- libraries, so what it returns (Reader) is an argument; Go's `strings` package is the parameter `TextOps`. The
-- entry "_row" of a row, a number written in decimal, is the field `row_number` of `Row`.
pub mod Columns
pub mod Sheet
pub mod Limits
pub mod Trimmed
pub mod Mapper
