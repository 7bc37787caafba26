-- ===== src/Telemetry.antt =====
-- src/ai_pr_orchestrator/v3/telemetry.py: quota windows, request health and resource snapshots. An
-- instant is a number of microseconds and carries a timezone. Details, plans, currencies and other
-- texts that nothing reads are left out.
pub mod Ledger
pub mod Ring
pub mod History
pub mod Sources
pub mod Registry
pub mod Honesty
mod Examples
use aipro.Prelude.{
  ℕ, zero, suc, ◌+◌, ◌-◌, String, Bool, true, false, Option, none, some, List, [], ◌∷◌, filter,
  find, any, map, not, ◌&&◌, ◌||◌, ◌==◌, string_eq, nat_eq, Eq, is_some, is_empty, ltb,
  if◌then◌else◌, Result, ok, err, telemetry_error, ◌>>◌, raise_if, ◌↔◌, ◌≡◌, arith,
}
use aipro.Numbers.{Number, max}
use aipro.Catalog.{ResourceClass, has_duplicate}

pub data ResourceAvailability : Type 0 where
  available exhausted unavailable unknown : ResourceAvailability

pub data RequestOutcome : Type 0 where
  success rate_limited auth_failure server_error timeout client_error transport_error :
      RequestOutcome

abbrev pub is_success : RequestOutcome → Bool
is_success success = true
is_success _ = false

abbrev outcome_number : RequestOutcome → ℕ
outcome_number success = 0
outcome_number rate_limited = 1
outcome_number auth_failure = 2
outcome_number server_error = 3
outcome_number timeout = 4
outcome_number client_error = 5
outcome_number transport_error = 6

abbrev pub same_outcome : RequestOutcome → RequestOutcome → Bool
same_outcome o p = outcome_number o == outcome_number p

-- The fields `label`, `used_fraction` and `reset_at`.
pub record QuotaWindow (F : Type 0) : Type 0 where
  pub label : String
  pub used_fraction : Option F
  pub reset_at : Option ℕ

-- Counts by outcome; an outcome that is missing counts 0. `last_outcome` is `none` for "".
pub record ProviderHealth (F : Type 0) : Type 0 where
  pub observed_at : Option ℕ
  pub outcomes : List (RequestOutcome × ℕ)
  pub consecutive_failures : ℕ
  pub latency_samples_ms : List F
  pub retry_after : Option ℕ
  pub last_outcome : Option RequestOutcome

pub record ProviderResourceSnapshot (F : Type 0) : Type 0 where
  pub resource : String
  pub observed_at : ℕ
  pub availability : ResourceAvailability
  pub resource_class : ResourceClass
  pub windows : List (QuotaWindow F)
  pub cash_balance : Option F
  pub expires_at : Option ℕ
  pub health : ProviderHealth F
  pub ttl_seconds : Option F
  pub source : String
  pub reason : String

-- `sum(self.outcomes.values())`
unfoldable pub sum_values : List (RequestOutcome × ℕ) → ℕ
sum_values [] = 0
sum_values ((o, k) ∷ rest) = k + sum_values rest

-- `self.outcomes.get(o, 0)`
unfoldable pub count_of : RequestOutcome → List (RequestOutcome × ℕ) → ℕ
count_of o [] = 0
count_of o ((p, k) ∷ rest) = if same_outcome p o then k else count_of o rest

abbrev pub is_exhausted_state : ResourceAvailability → Bool
is_exhausted_state exhausted = true
is_exhausted_state _ = false

abbrev pub is_available_state : ResourceAvailability → Bool
is_available_state available = true
is_available_state _ = false

-- `availability in ("unavailable", "unknown")`
abbrev pub needs_reason : ResourceAvailability → Bool
needs_reason unavailable = true
needs_reason unknown = true
needs_reason _ = false

-- `ProviderHealth()`
abbrev pub no_health : {F : Type 0} → ProviderHealth F
no_health = record {
  observed_at = none;
  outcomes = [];
  consecutive_failures = 0;
  latency_samples_ms = [];
  retry_after = none;
  last_outcome = none;
}

module _ {F : Type 0} where
  abbrev pub total : ProviderHealth F → ℕ
  total h = sum_values h.outcomes

  abbrev pub successes : ProviderHealth F → ℕ
  successes h = count_of success h.outcomes

  abbrev pub failures : ProviderHealth F → ℕ
  failures h = total h - successes h

  abbrev pub is_throttled : ProviderHealth F → ℕ → Bool
  is_throttled h now = elim h.retry_after [ none ↦ false | some t ↦ ltb now t ]

  abbrev pub labels : List (QuotaWindow F) → List String
  labels ws = map (λ w. w.label) ws

  -- In microseconds, clamped at zero.
  abbrev pub time_to_reset : QuotaWindow F → ℕ → Option ℕ
  time_to_reset w now = elim w.reset_at [ none ↦ none | some t ↦ some (t - now) ]

module _ {F : Type 0} (n : Number F) where
  abbrev pub failure_rate : ProviderHealth F → Option F
  failure_rate h =
      if total h == 0 then none else some (n.div (n.of_int (failures h)) (n.of_int (total h)))

  abbrev pub remaining_fraction : QuotaWindow F → Option F
  remaining_fraction w = elim w.used_fraction [
    | none ↦ none
    | some u ↦ some (max n n.zero (n.sub n.one u))
  ]

  unfoldable pub is_exhausted : QuotaWindow F → Bool
  is_exhausted w = elim w.used_fraction [ none ↦ false | some u ↦ n.le n.one u ]

  abbrev pub any_window_spent : List (QuotaWindow F) → Bool
  any_window_spent ws = any (is_exhausted) ws

  abbrev pub spent_windows : ProviderResourceSnapshot F → List (QuotaWindow F)
  spent_windows s = filter (is_exhausted) s.windows

  -- `cash_balance == 0.0`
  abbrev pub is_broke : Option F → Bool
  is_broke none = false
  is_broke (some c) = n.le c n.zero && n.le n.zero c

  unfoldable pub spent : ProviderResourceSnapshot F → Bool
  spent s = any_window_spent s.windows || is_broke s.cash_balance

  -- `not isfinite(x) or x < 0`, where the value is given
  abbrev pub bad_amount : Option F → Bool
  bad_amount none = false
  bad_amount (some x) = not (n.is_finite x) || n.lt x n.zero

  abbrev pub bad_ttl : Option F → Bool
  bad_ttl none = false
  bad_ttl (some x) = not (n.is_finite x) || n.le x n.zero

  -- `QuotaWindow(...)` with `__post_init__`
  unfoldable pub quota_window : QuotaWindow F → Result (QuotaWindow F)
  quota_window w = do
    raise_if (w.label == "") telemetry_error
    raise_if (bad_amount w.used_fraction) telemetry_error
    ok w

  -- `ProviderResourceSnapshot(...)` with `__post_init__`: the checks after the redaction of the reason
  unfoldable pub checked : ProviderResourceSnapshot F → Result (ProviderResourceSnapshot F)
  checked s = do
    raise_if (has_duplicate (labels s.windows)) telemetry_error
    raise_if (bad_amount s.cash_balance) telemetry_error
    raise_if (bad_ttl s.ttl_seconds) telemetry_error
    raise_if (is_exhausted_state s.availability && not (spent s)) telemetry_error
    raise_if (is_available_state s.availability && spent s) telemetry_error
    raise_if (needs_reason s.availability && s.reason == "") telemetry_error
    ok s

  -- `redact` masks credentials in a text; it is given by regular expressions.
  module _ (redact : String → String) where
    -- `if self.reason: ... redact_secrets(self.reason)`
    unfoldable pub masked : String → String
    masked reason = if reason == "" then reason else redact reason

    abbrev pub redacted : ProviderResourceSnapshot F → ProviderResourceSnapshot F
    redacted s = record s { reason = masked s.reason }

    unfoldable pub snapshot_of : ProviderResourceSnapshot F → Result (ProviderResourceSnapshot F)
    snapshot_of s = do raise_if (s.resource == "") telemetry_error; checked (redacted s)

    -- `with_health`: a copy with the given health, which is checked again
    abbrev pub with_health :
        ProviderHealth F → ProviderResourceSnapshot F → Result (ProviderResourceSnapshot F)
    with_health h s = snapshot_of (record s { health = h })
