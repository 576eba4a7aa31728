-- ===== src/Enrollment/Tests.antt =====
-- The enrollment service on small inputs.
mod Settings
pub mod Issuing
mod Serving
mod Service
mod Kms
