-- ===== src/Telemetry/Sources.antt =====
-- src/ai_pr_orchestrator/v3/telemetry.py: `unknown_snapshot` and `CatalogTelemetrySource`. `quoted` is
-- how a text is shown inside a message.
use Prim.Native.String.{◌++◌ as join}
use aipro.Prelude.{
  ℕ, String, Option, none, some, List, [], map, filter, not, ◌||◌, ◌==◌, string_eq, if◌then◌else◌,
  is_some, Result,
}
use aipro.Numbers.{Number}
use aipro.Catalog.{
  subscription, ModelCatalogEntry, ModelCatalog, get, promotion_active, has_known_price, is_free,
  is_free_tier,
}
use aipro.Telemetry.{
  ResourceAvailability, available, unavailable, unknown, ProviderResourceSnapshot, no_health,
  snapshot_of,
}

abbrev pub unstated : String
unstated = "telemetry unavailable for an unstated reason"

module _ {F : Type 0} (n : Number F) (redact : String → String) where
  abbrev pub unknown_raw : String → String → ℕ → Option F → String → ProviderResourceSnapshot F
  unknown_raw resource reason now ttl source = record {
    resource = resource;
    observed_at = now;
    availability = unknown;
    resource_class = subscription;
    windows = [];
    cash_balance = none;
    expires_at = none;
    health = no_health;
    ttl_seconds = ttl;
    source = source;
    reason = if reason == "" then unstated else reason;
  }

  -- `unknown_snapshot`
  unfoldable pub unknown_snapshot :
      String → String → ℕ → Option F → String → Result (ProviderResourceSnapshot F)
  unknown_snapshot resource reason now ttl source =
      snapshot_of n redact (unknown_raw resource reason now ttl source)

  -- `ttl` is the source's `ttl_seconds`.
  module _ (quoted : String → String) (iso : ℕ → String) (ttl : Option F) where
    -- `CatalogTelemetrySource.resources`
    unfoldable pub catalog_resources : ModelCatalog F → List String
    catalog_resources c =
        map (λ e. e.ref)
          (filter (λ e. (is_free_tier e.resource_class || is_free e.cost_class) || e.promotional)
            c.entries)

    abbrev pub verdict : ModelCatalogEntry F → ℕ → ResourceAvailability × String
    verdict e now =
        if not e.enabled
        then (unavailable, join "catalog entry " (join (quoted e.ref) " is disabled"))
        else if not (has_known_price e now)
        then (
          unavailable,
          join "catalog entry " (
              join (quoted e.ref) (
                join " has no determinable price at "
                  (join (iso now) " (promotion ended and no list price is declared)"))),
        )
        else (available, "")

    -- `source_updated_at or now`
    abbrev pub or_now : Option ℕ → ℕ → ℕ
    or_now none now = now
    or_now (some t) now = t

    abbrev pub entry_snapshot : ModelCatalogEntry F → ℕ → ProviderResourceSnapshot F
    entry_snapshot e now = record {
      resource = e.ref;
      observed_at = or_now e.source_updated_at now;
      availability = (verdict e now).0;
      resource_class = e.resource_class;
      windows = [];
      cash_balance = none;
      expires_at = if promotion_active e now then e.promo_ends_at else none;
      health = no_health;
      ttl_seconds = if is_some e.source_updated_at then ttl else none;
      source = "catalog";
      reason = (verdict e now).1;
    }

    unfoldable pub catalog_snapshot :
        ModelCatalog F → String → ℕ → Result (ProviderResourceSnapshot F)
    catalog_snapshot c resource now = elim (get c resource) [
      | none ↦
          unknown_snapshot resource (join (quoted resource) " is not present in the model catalog")
            now ttl "catalog"
      | some e ↦ snapshot_of n redact (entry_snapshot e now)
    ]
