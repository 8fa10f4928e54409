-- ===== src/Version.antt =====
-- project/version_set.cc and version_set.h: the files of a version.
pub mod Keys
pub mod Files
pub mod Inputs
pub mod Manifest
pub mod Builder
pub mod Levels
pub mod Compaction
pub mod Outputs
pub mod Get
pub mod Stats
pub mod Tests
