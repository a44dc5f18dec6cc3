-- ===== src/Capture.antt =====
-- The capture scripts of Benchmarks/Results/Published/*/capture-scripts.
pub mod World
pub mod Inversion
pub mod Reading
pub mod Keeping
pub mod Compilers
pub mod Shell
pub mod Commands
pub mod Experiment
pub mod Workspace
pub mod Metadata
pub mod Rerun
pub mod Summarize
pub mod TwoPhase
pub mod LazyProjection
pub mod PeerProjection
pub mod PatchedCidr
