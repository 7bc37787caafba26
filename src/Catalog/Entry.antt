-- ===== src/Catalog/Entry.antt =====
-- src/ai_pr_orchestrator/v3/catalog.py: the checks of `ModelCatalogEntry.__post_init__`, in their
-- order. Classes, capabilities and roles are valid by their types, timestamps carry a timezone.
use aipro.Prelude.{
  ℕ, Bool, true, false, Option, none, some, List, any, not, ◌&&◌, ◌||◌, ◌==◌, string_eq, is_some,
  is_empty, contains, leb, ltb, Result, ok, model_catalog_error, ◌>>◌, raise_if,
}
use aipro.Domain.{AgentLaneRole}
use aipro.Numbers.{Number}
use aipro.Catalog.{ModelCatalogEntry, Capability, tools, coding, costs_nothing, on_scale, role_eq}

abbrev pub is_coding : Capability → Bool
is_coding coding = true
is_coding _ = false

abbrev pub is_tools : Capability → Bool
is_tools tools = true
is_tools _ = false

-- `promo_ends_at <= promo_starts_at`, where both are given
abbrev pub ends_early : Option ℕ → Option ℕ → Bool
ends_early (some s) (some e) = leb e s
ends_early _ _ = false

-- `limit is not None and limit < 1`
abbrev pub under_one : Option ℕ → Bool
under_one none = false
under_one (some n) = ltb n 1

-- A score for a role that is not listed, or off the scale.
abbrev pub bad_score : List AgentLaneRole → AgentLaneRole × ℕ → Bool
bad_score roles (r, q) = (not (is_empty roles) && not (contains r roles)) || not (on_scale q)

module _ {F : Type 0} (n : Number F) where
  abbrev pub bad_price : Option F → Bool
  bad_price none = false
  bad_price (some p) = not (n.is_finite p) || n.lt p n.zero

  -- `if price`
  abbrev pub non_zero : Option F → Bool
  non_zero none = false
  non_zero (some p) = n.lt p n.zero || n.lt n.zero p

  unfoldable pub post_init : ModelCatalogEntry F → Result (ModelCatalogEntry F)
  post_init e = do
    raise_if (e.ref == "") model_catalog_error
    raise_if (e.descriptor == "") model_catalog_error
    raise_if (bad_price e.input_price_per_mtok || bad_price e.output_price_per_mtok)
        model_catalog_error
    raise_if
        (costs_nothing e && (non_zero e.input_price_per_mtok || non_zero e.output_price_per_mtok))
        model_catalog_error
    raise_if (ends_early e.promo_starts_at e.promo_ends_at) model_catalog_error
    raise_if (not e.promotional && (is_some e.promo_starts_at || is_some e.promo_ends_at))
        model_catalog_error
    raise_if (e.promotional && costs_nothing e) model_catalog_error
    raise_if (any is_coding e.capabilities && not (any is_tools e.capabilities)) model_catalog_error
    raise_if (not (on_scale e.min_task_difficulty)) model_catalog_error
    raise_if (any (bad_score e.roles) e.quality_by_role) model_catalog_error
    raise_if (under_one e.max_context_tokens) model_catalog_error
    raise_if (under_one e.max_concurrency) model_catalog_error
    ok e
