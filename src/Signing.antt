-- ===== src/Signing.antt =====
-- sawtooth_signing: keys in hexadecimal, signatures, and the signer that clients hold.
pub mod Hex
pub mod Keys
pub mod Signer
pub mod Sound
pub mod Bits
mod Examples
