-- ===== src/Demux.antt =====
-- internal/demux: the demultiplexer state machine. Children define the data and the operations of
-- each source file, and prove in modules of their own.
pub mod Types
pub mod Queue
pub mod Names
pub mod Machine
pub mod Retire
pub mod Death
pub mod Branch
pub mod Pending
pub mod Route
pub mod Ledger
pub mod Returns
pub mod Isolation
pub mod Cascade
mod Tests
