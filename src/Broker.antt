-- ===== src/Broker.antt =====
-- src/ai_pr_orchestrator/v3/broker.py: the model broker, which ranks the entries of the catalog for a
-- demand and hands out concurrency slots.
pub mod Capacity
pub mod Leases
pub mod Occupancy
pub mod Turnover
pub mod Windows
pub mod Filters
pub mod Scoring
pub mod Select
pub mod Dispatch
pub mod Decision
pub mod Ranking
pub mod Fallbacks
mod Examples
use Prim.Native.String.{◌++◌ as join}
use aipro.Prelude.{
  ℕ, String, List, Option, Result, ok, domain_error, ◌==◌, string_eq, ◌>>◌, raise_if,
}

-- src/ai_pr_orchestrator/v3/domain.py
pub record ModelAssignment : Type 0 where
  pub lane : String
  pub model_ref : String

-- `ModelAssignment(...)` with `__post_init__`
unfoldable pub model_assignment : String → String → Result ModelAssignment
model_assignment lane ref = do
  raise_if (lane == "") domain_error
  raise_if (ref == "") domain_error
  ok (record { lane = lane; model_ref = ref })

-- src/ai_pr_orchestrator/v3/interfaces.py
pub record ModelLease (F : Type 0) : Type 0 where
  pub lease_id : String
  pub assignment : ModelAssignment
  pub max_charge_usd : Option F
