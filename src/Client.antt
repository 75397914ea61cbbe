-- ===== src/Client.antt =====
-- The root package: messages, their classification, identifiers, limits and contracts.
pub mod Message
pub mod Classify
pub mod Counts
pub mod Settings
pub mod Framer
pub mod Reads
pub mod Session
pub mod Dispatch
pub mod Waiting
mod Tests
mod SessionTests
mod SettingsTests
mod ReadTests
