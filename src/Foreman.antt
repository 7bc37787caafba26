-- ===== src/Foreman.antt =====
-- src/ai_pr_orchestrator/v3/foreman.py: `ForemanPolicyLoop`, which drives one claimed work item
-- through development, review and the CI gate.
pub mod Outcome
pub mod Act
pub mod Services
pub mod Extras
pub mod Claims
pub mod Rounds
pub mod Publication
pub mod Gate
pub mod Review
pub mod Proposals
pub mod Development
pub mod Loop
pub mod Runs
pub mod Endings
pub mod RunEndings
pub mod Advance
pub mod Termination
pub mod Saving
pub mod Trust
pub mod Replay
pub mod Samples
mod Examples
