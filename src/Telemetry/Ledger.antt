-- ===== src/Telemetry/Ledger.antt =====
-- src/ai_pr_orchestrator/v3/telemetry.py: `ProviderHealthLedger`, a bounded ring of request outcomes
-- for each resource. Instants carry a timezone and outcomes are valid by their type.
use aipro.Prelude.{
  ℕ, suc, String, Option, none, some, List, [], ◌∷◌, ◌++◌, length, ltb, leb, if◌then◌else◌, Result,
  ok, telemetry_error, ◌>>◌, raise_if,
}
use aipro.Prelude.Dict.{Dict, lookup, insert, delete, put_opt}
use aipro.Numbers.{Number}
use aipro.Telemetry.{
  RequestOutcome, is_success, same_outcome, ProviderHealth, no_health, bad_amount,
}

-- An outcome and its latency in milliseconds.
abbrev pub Event : Type 0 → Type 0
Event F = RequestOutcome × Option F

pub record ProviderHealthLedger (F : Type 0) : Type 0 where
  pub window_size : ℕ
  pub events : Dict (List (Event F))
  pub observed_at : Dict ℕ
  pub retry_after : Dict ℕ

-- `counts[outcome] = counts.get(outcome, 0) + 1`
unfoldable pub count_one : RequestOutcome → List (RequestOutcome × ℕ) → List (RequestOutcome × ℕ)
count_one o [] = (o, 1) ∷ []
count_one o ((p, k) ∷ rest) =
    if same_outcome p o then (p, suc k) ∷ rest else (p, k) ∷ count_one o rest

module _ {F : Type 0} where
  -- `deque.append` with `maxlen`: a full ring drops its oldest element
  unfoldable pub append_bounded : ℕ → List (Event F) → Event F → List (Event F)
  append_bounded w [] e = e ∷ []
  append_bounded w (x ∷ xs) e = if leb w (length (x ∷ xs)) then xs ++ e ∷ [] else x ∷ xs ++ e ∷ []

  abbrev pub or_empty : Option (List (Event F)) → List (Event F)
  or_empty none = []
  or_empty (some es) = es

  -- `self._events.get(r)`, an empty ring where there is none
  unfoldable pub ring_of : String → Dict (List (Event F)) → List (Event F)
  ring_of r d = or_empty (lookup r d)

  abbrev pub no_events : ℕ → ProviderHealthLedger F
  no_events w = record { window_size = w; events = []; observed_at = []; retry_after = [] }

  -- `ProviderHealthLedger(window_size=w)`
  unfoldable pub ledger : ℕ → Result (ProviderHealthLedger F)
  ledger w = do raise_if (ltb w 1) telemetry_error; ok (no_events w)

  -- `for outcome, _ in events: counts[outcome] = ...`
  unfoldable pub counts_from :
      List (RequestOutcome × ℕ) → List (Event F) → List (RequestOutcome × ℕ)
  counts_from counts [] = counts
  counts_from counts ((o, ms) ∷ es) = counts_from (count_one o counts) es

  -- The failures at the end of the ring: `for outcome in reversed(events)`, from the left.
  unfoldable pub trailing : ℕ → List (Event F) → ℕ
  trailing k [] = k
  trailing k ((o, ms) ∷ es) = trailing (if is_success o then 0 else suc k) es

  unfoldable pub latencies : List (Event F) → List F
  latencies [] = []
  latencies ((o, none) ∷ es) = latencies es
  latencies ((o, some ms) ∷ es) = ms ∷ latencies es

  -- `events[-1][0]`
  unfoldable pub last_of : List (Event F) → Option RequestOutcome
  last_of [] = none
  last_of ((o, ms) ∷ []) = some o
  last_of (e ∷ f ∷ es) = last_of (f ∷ es)

  unfoldable pub summary : Option ℕ → Option ℕ → List (Event F) → ProviderHealth F
  summary seen until [] = no_health
  summary seen until (e ∷ es) = record {
    observed_at = seen;
    outcomes = counts_from [] (e ∷ es);
    consecutive_failures = trailing 0 (e ∷ es);
    latency_samples_ms = latencies (e ∷ es);
    retry_after = until;
    last_outcome = last_of (e ∷ es);
  }

  unfoldable pub health_of : ProviderHealthLedger F → String → ProviderHealth F
  health_of l r = summary (lookup r l.observed_at) (lookup r l.retry_after) (ring_of r l.events)

  unfoldable pub forget : ProviderHealthLedger F → String → ProviderHealthLedger F
  forget l r = record {
    window_size = l.window_size;
    events = delete r l.events;
    observed_at = delete r l.observed_at;
    retry_after = delete r l.retry_after;
  }

  -- `record(resource, outcome, at=, latency_ms=, retry_after=)` past its checks
  abbrev pub recorded :
      ProviderHealthLedger F → String → Event F → ℕ → Option ℕ → ProviderHealthLedger F
  recorded l r e now until = record {
    window_size = l.window_size;
    events = insert r (append_bounded l.window_size (ring_of r l.events) e) l.events;
    observed_at = insert r now l.observed_at;
    retry_after = put_opt r (λ t. t) until l.retry_after;
  }

module _ {F : Type 0} (n : Number F) where
  unfoldable pub record_outcome :
      ProviderHealthLedger F
      → String
      → RequestOutcome
      → ℕ
      → Option F
      → Option ℕ
      → Result (ProviderHealthLedger F)
  record_outcome l r o now ms until = do
    raise_if (bad_amount n ms) telemetry_error
    ok (recorded l r (o, ms) now until)
