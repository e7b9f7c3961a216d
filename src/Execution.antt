-- ===== src/Execution.antt =====
-- app/execution: the two executors that run a Request and write its failure.
pub mod Calls
pub mod Failure
pub mod Inline
pub mod Queue
pub mod Agreement
