-- ===== src/Telemetry/Examples.antt =====
-- Witnesses for the properties of telemetry.
use aipro.Prelude.{
  ℕ, ◌≤◌, String, false, none, some, List, [], ◌∷◌, length, ◌==◌, string_eq, ◌≡◌, refl, sym, ok,
  err, Error, value_error, subst, some_inj, any, contains,
}
use aipro.Prelude.Dict.{lookup, insert}
use aipro.Numbers.Thousandths.{thousandths}
use aipro.Catalog.{subscription, has_duplicate}
use aipro.Telemetry.{
  success, rate_limited, timeout, ProviderResourceSnapshot, no_health, total, exhausted,
  snapshot_of, checked, spent, masked, is_exhausted, sum_values,
}
use aipro.Telemetry.Ledger.{
  ProviderHealthLedger, ledger, no_events, health_of, ring_of, record_outcome, recorded, summary,
  append_bounded, counts_from, count_one,
}
use aipro.Telemetry.Ring.{last_n}
use aipro.Telemetry.History.{Call, record_all, outcomes_on, health_of-window}
use aipro.Telemetry.Registry.{TelemetrySource, TelemetryRegistry, snapshot}
use aipro.Telemetry.Honesty.{IsHonest, snapshot-IsHonest}

abbrev three_calls : List (Call ℕ)
three_calls =
    ("claude", success, 10, some 250, none)
    ∷ ("claude", timeout, 20, none, none)
    ∷ ("claude", rate_limited, 30, none, some 90)
    ∷ []

-- The ledger after the calls, with room for two outcomes.
abbrev after_three : ProviderHealthLedger ℕ
after_three =
    recorded
      (recorded (recorded (no_events 2) "claude" (success, some 250) 10 none) "claude"
        (timeout, none) 20 none)
      "claude" (rate_limited, none) 30 (some 90)

new_ledger : ledger 2 ≡ ok (no_events {F = ℕ} 2)
unfolding ledger
new_ledger = refl

calls_made : record_all thousandths (no_events 2) three_calls ≡ ok after_three
unfolding record_all record_outcome
calls_made = refl

health_of-window_example :
    (ring_of "claude" after_three.events ≡ last_n 2 (outcomes_on thousandths "claude" three_calls))
    × (total (health_of after_three "claude")
        ≡ length (last_n 2 (outcomes_on thousandths "claude" three_calls)))
    × (total (health_of after_three "claude") ≤ 2)
    × ((health_of after_three "claude").consecutive_failures
        ≤ total (health_of after_three "claude"))
health_of-window_example =
    health_of-window thousandths 2 (no_events 2) after_three three_calls "claude" new_ledger
      calls_made

-- The ring dropped the oldest outcome.
counted_two : total (health_of after_three "claude") ≡ 2
unfolding health_of ring_of sum_values summary lookup insert append_bounded counts_from count_one
counted_two = refl

-- A mask that replaces every text.
abbrev stars : String → String
stars t = "***"

abbrev same_text : String → String
same_text t = t

abbrev named_error : Error → String
named_error e = "an exception"

stars_keep : (t : String) → (t == "") ≡ false → (stars t == "") ≡ false
stars_keep t h = refl

abbrev broken : TelemetrySource ℕ
broken = record { resources = "claude" ∷ []; snapshot = λ r now. err value_error }

abbrev watched : TelemetryRegistry ℕ
watched = record { ledger = some after_three; owner = ("claude", broken) ∷ [] }

-- A source with one window that is spent.
abbrev spent_raw : ProviderResourceSnapshot ℕ
spent_raw = record {
  resource = "claude";
  observed_at = 40;
  availability = exhausted;
  resource_class = subscription;
  windows = record { label = "week"; used_fraction = some 1000; reset_at = some 90 } ∷ [];
  cash_balance = none;
  expires_at = none;
  health = no_health;
  ttl_seconds = none;
  source = "probe";
  reason = "";
}

abbrev probing : TelemetrySource ℕ
probing = record {
  resources = "claude" ∷ [];
  snapshot = λ r now. snapshot_of thousandths stars spent_raw;
}

abbrev metered_registry : TelemetryRegistry ℕ
metered_registry = record { ledger = some after_three; owner = ("claude", probing) ∷ [] }

built :
    (source : TelemetrySource ℕ) (s : ProviderResourceSnapshot ℕ)
    → lookup "claude" metered_registry.owner ≡ some source
    → source.snapshot "claude" 40 ≡ ok s
    → (raw : ProviderResourceSnapshot ℕ) × (snapshot_of thousandths stars raw ≡ ok s)
unfolding lookup
built source s owned h =
    (spent_raw, subst (λ z. z.snapshot "claude" 40 ≡ ok s) (sym (some_inj owned)) h)

-- The snapshot of the source is accepted.
spent_built : snapshot_of thousandths stars spent_raw ≡ ok spent_raw
unfolding snapshot_of checked spent masked is_exhausted any has_duplicate contains
spent_built = refl

snapshot-IsHonest_example :
    (v : ProviderResourceSnapshot ℕ) × (snapshot thousandths stars same_text named_error
        metered_registry "claude" 40
      ≡ ok v)
    × IsHonest thousandths v
snapshot-IsHonest_example =
    snapshot-IsHonest thousandths stars stars_keep same_text named_error metered_registry "claude"
      40 refl built
