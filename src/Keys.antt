-- ===== src/Keys.antt =====
-- keys/: the verification of tempogate's own access tokens, and the denylist it asks.
pub mod Denylist
pub mod Verifier
pub mod Revoked
mod Tests
