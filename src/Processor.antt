-- ===== src/Processor.antt =====
-- The transaction processor of the SDK: sawtooth_sdk/processor.
pub mod Context
pub mod Validator
pub mod Link
pub mod Core
