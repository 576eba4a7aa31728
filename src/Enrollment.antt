-- ===== src/Enrollment.antt =====
-- The enrollment service, enrollment/.
pub mod Config
pub mod Der
pub mod Certificate
pub mod Http
pub mod Kms
pub mod Server
pub mod Tests
