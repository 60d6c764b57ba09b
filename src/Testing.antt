-- ===== src/Testing.antt =====
-- sawtooth_processor_test: the validator that tests put in the place of a real one, and the messages
-- that tests are written with.
pub mod Order
pub mod Types
pub mod Comparators
pub mod Mock
pub mod Expect
pub mod ExpectOne
pub mod Factory
pub mod XoFactory
pub mod IntkeyFactory
pub mod Agrees
mod Examples
