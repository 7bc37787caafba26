-- ===== src/Broker/Scoring.antt =====
-- src/ai_pr_orchestrator/v3/broker.py: the components of a candidate's score. Quality is at least
-- the lowest tier, so the difference in its score is one of naturals.
use aipro.Prelude.{
  ℕ, ◌-◌, String, Option, none, some, List, [], ◌∷◌, map, not, ◌&&◌, ◌==◌, string_eq, nat_eq, leb,
  ltb, if◌then◌else◌, Result, ok, err, assertion_error, ◌>>=◌,
}
use aipro.Prelude.Dict.{lookup}
use aipro.Numbers.{Number, max, min, least, greatest}
use aipro.Catalog.{
  ModelCatalogEntry, ModelCatalog, get, effective_prices, quality_for, lowest, highest,
}
use aipro.Telemetry.{ProviderHealth, ProviderResourceSnapshot, total, failure_rate}
use aipro.Broker.Windows.{
  BrokerConfig, TaskDemand, WindowView, PolicyBroker, snapshot_for, windows, binding, or_default,
}
use aipro.Broker.Filters.{has_allowance}

-- `binding_window` is `none` for the texts that stand for a missing window.
pub record ScoreBreakdown (F : Type 0) : Type 0 where
  pub quality : F
  pub cash_cost : F
  pub quota_pressure : F
  pub health : F
  pub perishability : F
  pub reserve_effect : F
  pub binding_window : Option String
  pub observed_windows : List String
  pub diversity_penalty : F
  pub total : F

-- `self._config.default_quality or MIN_QUALITY`
abbrev pub or_min_quality : Option ℕ → ℕ
or_min_quality none = lowest
or_min_quality (some q) = if q == 0 then lowest else q

abbrev pub quality_or_default : Option ℕ → Option ℕ → ℕ
quality_or_default default none = or_min_quality default
quality_or_default default (some q) = q

module _ {F : Type 0} (n : Number F) where
  unfoldable pub quality_component : BrokerConfig F → ModelCatalogEntry F → TaskDemand → F
  quality_component c e d =
      n.div (n.of_int (quality_or_default c.default_quality (quality_for e d.role) - lowest))
        (n.of_int (highest - lowest))

  abbrev pub blend : BrokerConfig F → F × F → F
  blend c (i, o) = n.add (n.mul i c.expected_input_mtok) (n.mul o c.expected_output_mtok)

  -- `assert prices is not None`
  abbrev pub asserted : Option (F × F) → Result (F × F)
  asserted none = err assertion_error
  asserted (some p) = ok p

  unfoldable pub blended : BrokerConfig F → ModelCatalogEntry F → ℕ → Result F
  blended c e now =
      if has_allowance e
      then ok n.zero
      else asserted (effective_prices n.zero e now) >>= λ p. ok (blend c p)

  unfoldable pub cash_cost_component : BrokerConfig F → ModelCatalogEntry F → ℕ → Result F
  cash_cost_component c e now =
      blended c e now >>= λ b. ok (n.div n.one (n.add n.one (n.div b c.reference_price_per_mtok)))

  abbrev pub headroom : BrokerConfig F → ModelCatalogEntry F → Option (WindowView F) → F
  headroom c e none = if has_allowance e then c.unknown_quota_score else n.one
  headroom c e (some v) = max n n.zero (min n n.one v.available)

  unfoldable pub quota_component :
      BrokerConfig F
      → ModelCatalogEntry F
      → Option (ProviderResourceSnapshot F)
      → Option (WindowView F)
      → F
  quota_component c e none v = if has_allowance e then c.unknown_quota_score else n.one
  quota_component c e (some s) v = headroom c e v

  abbrev pub health_of_rate : BrokerConfig F → ProviderHealth F → Option F → F
  health_of_rate c h none = c.unknown_health_score
  health_of_rate c h (some r) =
      if ltb (total h) c.min_health_samples
      then c.unknown_health_score
      else max n n.zero (n.sub n.one r)

  unfoldable pub health_component : BrokerConfig F → Option (ProviderResourceSnapshot F) → F
  health_component c none = c.unknown_health_score
  health_component c (some s) = health_of_rate c s.health (failure_rate n s.health)

  -- `max(0.0, 1.0 - hours / horizon)`
  abbrev pub urgency : BrokerConfig F → F → F
  urgency c h = max n n.zero (n.sub n.one (n.div h c.pull_forward_horizon_hours))

  -- The hours that are left are positive exactly when the expiry lies ahead.
  abbrev pub until_expiry : BrokerConfig F → ℕ → Option ℕ → F
  until_expiry c now none = n.zero
  until_expiry c now (some t) = if leb t now then n.zero else urgency c (n.hours (t - now))

  unfoldable pub promo_perishability : BrokerConfig F → Option (ProviderResourceSnapshot F) → ℕ → F
  promo_perishability c none now = n.zero
  promo_perishability c (some s) now = until_expiry c now s.expires_at

  abbrev pub burn_of : BrokerConfig F → Option (ProviderResourceSnapshot F) → F
  burn_of c none = n.zero
  burn_of c (some s) = or_default n n.zero (lookup s.resource c.projected_burn_fraction_per_hour)

  abbrev pub burnt : F → Option F → F
  burnt burn none = n.zero
  burnt burn (some h) = n.mul burn h

  abbrev pub surplus : F → WindowView F → F
  surplus burn v = max n n.zero (n.sub v.available (burnt burn v.hours_to_reset))

  unfoldable pub known_resets : List (WindowView F) → List F
  known_resets [] = []
  known_resets (v ∷ vs) = elim v.hours_to_reset [
    | none ↦ known_resets vs
    | some h ↦ h ∷ known_resets vs
  ]

  abbrev pub pulled_forward : BrokerConfig F → F → F → List F → F
  pulled_forward c promo joint [] = promo
  pulled_forward c promo joint (h ∷ hs) =
      max n (n.mul joint (greatest n (urgency c h) (map (urgency c) hs))) promo

  unfoldable pub perishability_component :
      BrokerConfig F → Option (ProviderResourceSnapshot F) → List (WindowView F) → ℕ → F
  perishability_component c s [] now = promo_perishability c s now
  perishability_component c s (v ∷ vs) now =
      pulled_forward c (promo_perishability c s now)
        (least n (surplus (burn_of c s) v) (map (surplus (burn_of c s)) vs)) (known_resets (v ∷ vs))

  -- What one peer adds to the penalty.
  abbrev pub likeness : ModelCatalogEntry F → F → Option (ModelCatalogEntry F) → F
  likeness e penalty none = penalty
  likeness e penalty (some p) =
      if not (e.family == "") && e.family == p.family
      then n.add penalty n.one
      else if not (e.vendor == "") && e.vendor == p.vendor
      then n.add penalty n.half
      else penalty

  unfoldable pub penalty_from : ModelCatalog F → ModelCatalogEntry F → F → List String → F
  penalty_from c e penalty [] = penalty
  penalty_from c e penalty (p ∷ ps) = penalty_from c e (likeness e penalty (get c p)) ps

  -- Without peers it is `0.0`, which is what the loop leaves.
  unfoldable pub diversity_penalty : ModelCatalog F → ModelCatalogEntry F → TaskDemand → F
  diversity_penalty c e d = elim d.peers [
    | [] ↦ n.zero
    | p ∷ ps ↦ min n n.one (penalty_from c e n.zero (p ∷ ps))
  ]

  abbrev pub reserve_effect_of : Option (WindowView F) → F
  reserve_effect_of none = n.zero
  reserve_effect_of (some v) = v.reserve

  abbrev pub label_of : Option (WindowView F) → Option String
  label_of none = none
  label_of (some v) = some v.label

  abbrev pub weighted : BrokerConfig F → F → F → F → F → F → F → F
  weighted c quality cash quota health perish penalty =
      n.sub
        (n.add
          (n.add
            (n.add (n.add (n.mul c.weight_quality quality) (n.mul c.weight_cash_cost cash))
              (n.mul c.weight_quota_pressure quota))
            (n.mul c.weight_health health))
          (n.mul c.weight_perishability perish))
        (n.mul c.weight_diversity penalty)

  abbrev pub breakdown :
      PolicyBroker F
      → ModelCatalogEntry F
      → TaskDemand
      → ℕ
      → Option (ProviderResourceSnapshot F)
      → List (WindowView F)
      → F
      → ScoreBreakdown F
  breakdown b e d now s views cash = record {
    quality = quality_component b.config e d;
    cash_cost = cash;
    quota_pressure = quota_component b.config e s (binding n views);
    health = health_component b.config s;
    perishability = perishability_component b.config s views now;
    reserve_effect = reserve_effect_of (binding n views);
    binding_window = label_of (binding n views);
    observed_windows = map (λ v. v.label) views;
    diversity_penalty = diversity_penalty b.catalog e d;
    total =
        weighted b.config (quality_component b.config e d) cash
          (quota_component b.config e s (binding n views)) (health_component b.config s)
          (perishability_component b.config s views now) (diversity_penalty b.catalog e d);
  }

  -- `_score`
  unfoldable pub score :
      PolicyBroker F → ModelCatalogEntry F → TaskDemand → ℕ → Result (ScoreBreakdown F)
  score b e d now =
      let s = snapshot_for b e in
      cash_cost_component b.config e now >>= λ cash.
      ok (breakdown b e d now s (windows n b s now) cash)
