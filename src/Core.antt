-- ===== src/Core.antt =====
-- base/core: the tests of utils.ts and constructors of the model.
pub mod Dates
pub mod Models
pub mod Properties
