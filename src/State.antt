-- ===== src/State.antt =====
-- state/sqlite/: the store, one module for each table. A table is the list of its rows; the
-- order of the rows stands for nothing, since every statement reads at most one row, all rows
-- that its WHERE clause holds of, or a count.
pub mod Driver
pub mod DeviceCodes
pub mod AuthRequests
pub mod BrowserSessions
pub mod IntegrationKeys
pub mod AuthCodes
pub mod Refresh
