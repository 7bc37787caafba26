-- ===== src/Telemetry/Registry.antt =====
-- src/ai_pr_orchestrator/v3/telemetry.py: `TelemetryRegistry`, which asks the source that owns a
-- resource. A source is an interface; what it raises is a value. `quoted` is how a text is shown
-- inside a message and `described` how an exception is.
use Prim.Native.String.{◌++◌ as join}
use aipro.Prelude.{
  ℕ, String, Option, none, some, List, [], ◌∷◌, if◌then◌else◌, Result, ok, err, Error,
  telemetry_error, ◌>>=◌,
}
use aipro.Prelude.Dict.{Dict, lookup, insert, has}
use aipro.Numbers.{Number}
use aipro.Telemetry.{ProviderResourceSnapshot, with_health}
use aipro.Telemetry.Ledger.{ProviderHealthLedger, health_of}
use aipro.Telemetry.Sources.{unknown_snapshot}

-- An adapter: what it serves, and its snapshot of a resource at an instant.
pub record TelemetrySource (F : Type 0) : Type 0 where
  pub resources : List String
  pub snapshot : String → ℕ → Result (ProviderResourceSnapshot F)

pub record TelemetryRegistry (F : Type 0) : Type 0 where
  pub ledger : Option (ProviderHealthLedger F)
  pub owner : Dict (TelemetrySource F)

module _ {F : Type 0} where
  -- `for resource in source.resources(): ...`
  unfoldable pub claim_all :
      TelemetrySource F → Dict (TelemetrySource F) → List String → Result (Dict (TelemetrySource F))
  claim_all s owner [] = ok owner
  claim_all s owner (r ∷ rs) =
      if has r owner then err telemetry_error else claim_all s (insert r s owner) rs

  unfoldable pub owners_from :
      Dict (TelemetrySource F) → List (TelemetrySource F) → Result (Dict (TelemetrySource F))
  owners_from owner [] = ok owner
  owners_from owner (s ∷ ss) = claim_all s owner s.resources >>= λ next. owners_from next ss

  unfoldable pub registry :
      List (TelemetrySource F) → Option (ProviderHealthLedger F) → Result (TelemetryRegistry F)
  registry sources l = owners_from [] sources >>= λ owner. ok (record { ledger = l; owner = owner })

  module _ (n : Number F) (redact quoted : String → String) (described : Error → String) where
    abbrev pub attach_health :
        TelemetryRegistry F → ProviderResourceSnapshot F → Result (ProviderResourceSnapshot F)
    attach_health t s = elim t.ledger [
      | none ↦ ok s
      | some l ↦ with_health n redact (health_of l s.resource) s
    ]

    -- `except Exception as exc`
    abbrev pub or_failed :
        String → ℕ → Result (ProviderResourceSnapshot F) → Result (ProviderResourceSnapshot F)
    or_failed r now (ok s) = ok s
    or_failed r now (err e) =
        unknown_snapshot n redact r (join "telemetry source failed: " (described e)) now none ""

    abbrev pub asked : String → ℕ → Option (TelemetrySource F) → Result (ProviderResourceSnapshot F)
    asked r now none =
        unknown_snapshot n redact r
          (join (quoted r) " is not served by any configured telemetry source") now none ""
    asked r now (some source) = or_failed r now (source.snapshot r now)

    unfoldable pub snapshot : TelemetryRegistry F → String → ℕ → Result (ProviderResourceSnapshot F)
    snapshot t r now = asked r now (lookup r t.owner) >>= attach_health t

    -- `tuple(self.snapshot(resource, at=now) for resource in self._owner)`
    unfoldable pub snapshot_each :
        TelemetryRegistry F
        → ℕ
        → List (String × TelemetrySource F)
        → Result (List (ProviderResourceSnapshot F))
    snapshot_each t now [] = ok []
    snapshot_each t now ((r, s) ∷ rest) = do
      first ← snapshot t r now
      others ← snapshot_each t now rest
      ok (first ∷ others)

    unfoldable pub snapshot_all :
        TelemetryRegistry F → ℕ → Result (List (ProviderResourceSnapshot F))
    snapshot_all t now = snapshot_each t now t.owner
