-- ===== src/Queue.antt =====
-- src/ai_pr_orchestrator/v3/queue.py: claims and leases, the stored workflow state, and the
-- operations of the issue queue.
pub mod Claim
pub mod Store
pub mod Lifecycle
pub mod Listing
pub mod Versions
pub mod Ownership
pub mod LifecycleExamples
pub mod Attribution
pub mod Compaction
pub mod Fit
pub mod Arbitration
mod Settling
pub mod OneClaimant
pub mod Labels
pub mod LabelSync
mod Examples
mod RaceExamples
