-- ===== src/Catalog.antt =====
-- src/ai_pr_orchestrator/v3/catalog.py: the model catalog. Prices are numbers of the parameter `F`;
-- a timestamp is a number of microseconds. Notes, endpoints and other texts that nothing reads are
-- left out.
pub mod Entry
pub mod Prices
pub mod Refs
use aipro.Prelude.{
  ℕ, String, Bool, true, false, Option, none, some, List, [], ◌∷◌, filter, find, contains, not,
  ◌&&◌, ◌||◌, ◌==◌, string_eq, Eq, is_some, is_none, is_empty, map, leb, ltb, if◌then◌else◌, Result,
  ok, err, model_catalog_error, ◌>>◌, raise_if, ◌↔◌, ◌≡◌, arith,
}
use aipro.Domain.{AgentLaneRole, foreman, worker, reviewer}

pub data ResourceClass : Type 0 where
  subscription metered free_tier : ResourceClass

pub data CostClass : Type 0 where
  free low medium high : CostClass

pub data Capability : Type 0 where
  tools coding reasoning vision long_context : Capability

abbrev pub lowest : ℕ
lowest = 1

abbrev pub highest : ℕ
highest = 5

abbrev pub same_role : AgentLaneRole → AgentLaneRole → Bool
same_role foreman foreman = true
same_role worker worker = true
same_role reviewer reviewer = true
same_role _ _ = false

pub same_role_iff : (r s : AgentLaneRole) → (same_role r s ≡ true) ↔ (r ≡ s)
same_role_iff r s = ground arith

instance abbrev pub role_eq : Eq AgentLaneRole
role_eq = record { same = same_role; same_iff = same_role_iff }

abbrev pub is_free : CostClass → Bool
is_free free = true
is_free _ = false

abbrev pub is_free_tier : ResourceClass → Bool
is_free_tier free_tier = true
is_free_tier _ = false

abbrev pub is_subscription : ResourceClass → Bool
is_subscription subscription = true
is_subscription _ = false

pub record ModelCatalogEntry (F : Type 0) : Type 0 where
  pub ref : String
  pub descriptor : String
  pub provider : String
  pub resource_class : ResourceClass
  pub cost_class : CostClass
  pub input_price_per_mtok : Option F
  pub output_price_per_mtok : Option F
  pub promotional : Bool
  pub promo_starts_at : Option ℕ
  pub promo_ends_at : Option ℕ
  pub capabilities : List Capability
  pub roles : List AgentLaneRole
  pub min_task_difficulty : ℕ
  pub family : String
  pub vendor : String
  pub max_context_tokens : Option ℕ
  pub enabled : Bool
  pub quality_by_role : List (AgentLaneRole × ℕ)
  pub max_concurrency : Option ℕ
  pub source_updated_at : Option ℕ

-- `difficulty <= 5` and `1 <= difficulty`
abbrev pub on_scale : ℕ → Bool
on_scale n = leb lowest n && leb n highest

-- `promo_starts_at is not None and now < promo_starts_at`, and the test on the end
abbrev pub before : Option ℕ → ℕ → Bool
before none now = false
before (some t) now = ltb now t

abbrev pub reached : Option ℕ → ℕ → Bool
reached none now = false
reached (some t) now = leb t now

unfoldable pub score_of : AgentLaneRole → List (AgentLaneRole × ℕ) → Option ℕ
score_of r [] = none
score_of r ((s, q) ∷ rest) = if s == r then some q else score_of r rest

-- `role is not None and self.roles and role not in self.roles`
abbrev pub excludes : List AgentLaneRole → Option AgentLaneRole → Bool
excludes roles none = false
excludes roles (some r) = not (is_empty roles) && not (contains r roles)

module _ {F : Type 0} where
  -- `permanently free`, as several checks ask it
  abbrev pub costs_nothing : ModelCatalogEntry F → Bool
  costs_nothing e = is_free e.cost_class || is_free_tier e.resource_class

  unfoldable pub promotion_active : ModelCatalogEntry F → ℕ → Bool
  promotion_active e now =
      if not e.promotional
      then false
      else if before e.promo_starts_at now
      then false
      else not (reached e.promo_ends_at now)

  unfoldable pub has_known_price : ModelCatalogEntry F → ℕ → Bool
  has_known_price e now =
      if promotion_active e now || is_free e.cost_class
      then true
      else if is_free_tier e.resource_class
      then true
      else is_some e.input_price_per_mtok && is_some e.output_price_per_mtok

  -- `if input is None or output is None: return None`
  abbrev pub list_prices : Option F → Option F → Option (F × F)
  list_prices (some i) (some o) = some (i, o)
  list_prices _ _ = none

  -- `zero` is 0.0
  unfoldable pub effective_prices : F → ModelCatalogEntry F → ℕ → Option (F × F)
  effective_prices zero e now =
      if promotion_active e now || is_free e.cost_class
      then some (zero, zero)
      else if is_free_tier e.resource_class
      then some (zero, zero)
      else list_prices e.input_price_per_mtok e.output_price_per_mtok

  abbrev pub quality_for : ModelCatalogEntry F → AgentLaneRole → Option ℕ
  quality_for e r = score_of r e.quality_by_role

  unfoldable pub is_eligible : ModelCatalogEntry F → Option AgentLaneRole → ℕ → ℕ → Bool
  is_eligible e role difficulty now =
      if not e.enabled
      then false
      else if excludes e.roles role
      then false
      else if ltb difficulty e.min_task_difficulty
      then false
      else has_known_price e now

pub record ModelCatalog (F : Type 0) : Type 0 where
  pub entries : List (ModelCatalogEntry F)

-- Whether some text stands twice: `refs.count(ref) > 1` for some ref.
unfoldable pub has_duplicate : List String → Bool
has_duplicate [] = false
has_duplicate (r ∷ rs) = contains r rs || has_duplicate rs

module _ {F : Type 0} where
  unfoldable pub refs : List (ModelCatalogEntry F) → List String
  refs [] = []
  refs (e ∷ es) = e.ref ∷ refs es

  -- `ModelCatalog(entries)`
  unfoldable pub model_catalog : List (ModelCatalogEntry F) → Result (ModelCatalog F)
  model_catalog es = do
    raise_if (has_duplicate (refs es)) model_catalog_error
    ok (record { entries = es })

  unfoldable pub get : ModelCatalog F → String → Option (ModelCatalogEntry F)
  get c ref = find (λ e. e.ref == ref) c.entries

  -- The role is valid by its type.
  unfoldable pub eligible :
      ModelCatalog F → Option AgentLaneRole → ℕ → ℕ → Result (List (ModelCatalogEntry F))
  eligible c role difficulty now = do
    raise_if (not (on_scale difficulty)) model_catalog_error
    ok (filter (λ e. is_eligible e role difficulty now) c.entries)
