-- ===== src/Tests.antt =====
-- Runs of the model at concrete data, and the theorems at inputs that meet their hypotheses.
mod Toy
mod Patterns
mod Publication
mod Verification
mod Capture
mod Rerun
mod Prepare
mod Summary
mod ToyCidr
mod Policy
mod Loading
mod Reading
mod Live
