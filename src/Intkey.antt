-- ===== src/Intkey.antt =====
-- The transaction family `intkey`: examples/intkey_python/sawtooth_intkey/processor/handler.py.
pub mod Payload
pub mod Verbs
pub mod Handler
pub mod Amounts
pub mod Unpack
pub mod Ledger
pub mod History
pub mod Plain
mod Examples
