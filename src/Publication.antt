-- ===== src/Publication.antt =====
-- scripts/prepare-benchmark-publication.py
pub mod Patterns
pub mod Redaction
pub mod Privacy
pub mod Transform
pub mod Lines
pub mod Manifest
pub mod Bundle
pub mod Verify
pub mod Readme
pub mod Prepare
