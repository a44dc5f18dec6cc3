-- ===== src/Admission.antt =====
-- The library CIDRAdmission, in Sources/CIDRAdmission.
pub mod Cidr
pub mod Characters
pub mod Rules
pub mod Policy
pub mod Errors
pub mod Messages
pub mod Platform
pub mod Checksum
pub mod ListText
pub mod Loader
pub mod FileAccess
pub mod Configuration
