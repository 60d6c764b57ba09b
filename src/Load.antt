-- ===== src/Load.antt =====
-- The generators of load under examples: batches for validators at a steady rate, and what is done
-- when one is committed, is not, or its validator is gone.
pub mod Intkey
pub mod Noop
pub mod Generator
pub mod Tracked
pub mod Validators
pub mod Callbacks
pub mod Status
mod Examples
