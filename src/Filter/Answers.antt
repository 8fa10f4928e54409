-- ===== src/Filter/Answers.antt =====
-- What a reader answers over the block that a builder made.
pub mod Slices
pub mod Layout
pub mod Point
pub mod Range
