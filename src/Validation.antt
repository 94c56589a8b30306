-- ===== src/Validation.antt =====
-- .ai/validation/src/lib.rs: the probe of the public traits, with its own values.
pub mod Defs
pub mod RoundTrip
pub mod Tests
