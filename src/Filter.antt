-- ===== src/Filter.antt =====
-- project/filter_block.cc, filter_policy.h and surf_filter.cc: the filter of a table.
pub mod Policy
pub mod Builder
pub mod Reader
pub mod Answers
pub mod Surf
pub mod Tests
