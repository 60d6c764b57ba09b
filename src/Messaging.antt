-- ===== src/Messaging.antt =====
-- The connection to the validator: sawtooth_sdk/messaging.
pub mod Future
pub mod Stream
pub mod Tracked
pub mod Pending
pub mod Delivery
mod Examples
