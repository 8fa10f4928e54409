-- ===== src/Samples.antt =====
-- Concrete codings, orders, policies and files on which the tests run the code.
pub mod Bytes
pub mod Keys
