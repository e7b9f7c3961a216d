-- ===== src/Cache/Economics.antt =====
-- app/cache/economics.py: what a new cached resource may cost, and what it may be expected to save.
-- A returned mapping is a record: the entries that every branch sets are fields, the others stand in
-- `details`. Floats are those of `Runtime`; counts and ages that the code tests by `type(x) is int`
-- are values, so that every test is made.
pub mod Numbers
pub mod Forecast
pub mod Prices
pub mod NewResource
pub mod CurrentRead
pub mod Relative
pub mod Snapshot
pub mod Attachments
pub mod Budget
pub mod Evidence
