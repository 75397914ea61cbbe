-- ===== src/Wire.antt =====
-- internal/wire: the reader and the writer of messages.
pub mod Types
pub mod Folding
pub mod Writer
pub mod Fields
pub mod Lines
pub mod Reader
pub mod LineLaws
pub mod LineReads
pub mod FieldLaws
pub mod RoundTrip
pub mod Exchange
pub mod Padding
pub mod Progress
pub mod Endings
mod Tests
