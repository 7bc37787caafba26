-- ===== src/Lanes.antt =====
-- src/ai_pr_orchestrator/v3/lanes.py: the lane registry. An iterable of lanes is a list, and the
-- registry is the dictionary `_lanes` in insertion order.
pub mod Uniqueness
mod Examples
use aipro.Prelude.{
  String, Bool, true, false, Option, none, some, List, [], ◌∷◌, map, Result, ok, err, unknown_lane,
  lane_registry_error, domain_error, is_some, ◌==◌, string_eq, if◌then◌else◌, find, ◌>>=◌, ◌>>◌,
  raise_if, ◌||◌, is_empty,
}
use aipro.Prelude.Dict.{Dict, lookup, has, insert}
use aipro.Domain.{AgentLaneRole, foreman, worker, reviewer}

pub record LaneIdentity : Type 0 where
  pub lane : String
  pub role : AgentLaneRole
  pub profile_template : String

-- `LaneIdentity.__post_init__`, from the texts of a configuration
pub role_of : String → Option AgentLaneRole
role_of s =
    if s == "foreman"
    then some foreman
    else if s == "worker"
    then some worker
    else if s == "reviewer"
    then some reviewer
    else none

pub lane_identity : String → String → String → Result LaneIdentity
unfolding role_of
lane_identity lane role profile_template =
    if lane == "" then err domain_error else elim (role_of role) [
      | none ↦ err domain_error
      | some r ↦
          if profile_template == ""
          then err domain_error
          else ok (record { lane = lane; role = r; profile_template = profile_template })
    ]

abbrev pub developer_lane_name : String
developer_lane_name = "developer"

abbrev pub default_lanes : List LaneIdentity
default_lanes =
    record { lane = "developer"; role = worker; profile_template = "aipro-developer" }
    ∷ record {
      lane = "requirements-reviewer";
      role = reviewer;
      profile_template = "aipro-requirements-reviewer";
    }
    ∷ record {
      lane = "breaker-reviewer";
      role = reviewer;
      profile_template = "aipro-breaker-reviewer";
    }
    ∷ record {
      lane = "architecture-reviewer";
      role = reviewer;
      profile_template = "aipro-architecture-reviewer";
    }
    ∷ []

pub record LaneRegistry : Type 0 where
  pub lanes : Dict LaneIdentity

-- The loop of `LaneRegistry.__init__` over `by_name` and `by_profile`.
unfoldable pub add_lanes :
    Dict LaneIdentity → Dict String → List LaneIdentity → Result (Dict LaneIdentity)
add_lanes by_name by_profile [] = ok by_name
add_lanes by_name by_profile (l ∷ ls) =
    let rest =
      add_lanes (insert l.lane l by_name) (insert l.profile_template l.lane by_profile) ls in
    if has l.lane by_name
    then err lane_registry_error
    else if has l.profile_template by_profile
    then err lane_registry_error
    else rest

unfoldable pub registry : List LaneIdentity → Result LaneRegistry
registry lanes = do by_name ← add_lanes [] [] lanes; ok (record { lanes = by_name })

-- One entry of the `hermes_lanes` section: name, role and profile template.
pub record LaneProfileConfig : Type 0 where
  pub name : String
  pub role : String
  pub profile_template : String

-- The generator interleaves the checks of a lane with its insertion; both raise, and the
-- first error is the one that is seen.
add_configured :
    Dict LaneIdentity → Dict String → List LaneProfileConfig → Result (Dict LaneIdentity)
add_configured by_name by_profile [] = ok by_name
add_configured by_name by_profile (c ∷ cs) = elim (lane_identity c.name c.role c.profile_template) [
  | err e ↦ err e
  | ok l ↦ elim (has l.lane by_name || has l.profile_template by_profile) [
    | true ↦ err lane_registry_error
    | false ↦
        add_configured (insert l.lane l by_name) (insert l.profile_template l.lane by_profile) cs
  ]
]

pub from_config : List LaneProfileConfig → Result LaneRegistry
unfolding registry
from_config [] = registry default_lanes
from_config (c ∷ cs) = do by_name ← add_configured [] [] (c ∷ cs); ok (record { lanes = by_name })

unfoldable pub get : LaneRegistry → String → Result LaneIdentity
get r lane = elim (lookup lane r.lanes) [ none ↦ err unknown_lane | some l ↦ ok l ]

abbrev pub is_worker : AgentLaneRole → Bool
is_worker worker = true
is_worker _ = false

abbrev pub is_reviewer : AgentLaneRole → Bool
is_reviewer reviewer = true
is_reviewer _ = false

-- The property `developer_lane`.
pub developer_lane : LaneRegistry → String
developer_lane r = elim (find (λ e. is_worker e.1.role) r.lanes) [
  | none ↦ developer_lane_name
  | some e ↦ e.1.lane
]

pub names : LaneRegistry → List String
names r = map (λ e. e.0) r.lanes
