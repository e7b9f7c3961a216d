-- ===== src/Python.antt =====
-- Values of a dynamic language, and what the program's `dict.get`, `isinstance` and `or` do on them.
pub mod Value
pub mod Text
pub mod Runtime
