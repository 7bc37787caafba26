-- ===== src/Telemetry/Honesty.antt =====
-- A snapshot says no more than its evidence, whatever the sources do.
use Prim.Native.String.{◌++◌ as join}
use text.Mathlib.TextLemmas.{cons≢nil, cons-append, append-ne-nil_of_right_ne-nil}
use aipro.Prelude.{
  ==-cases, Result-cases, ℕ, String, Bool, true, false, Option, none, some, not, ◌&&◌, ◌==◌,
  string_eq, ◌≡◌, refl, sym, ap, ◌∙◌, subst, arith, Option-cases, inl, inr, Result, ok, err, Error,
  telemetry_error, ◌>>=◌, raise_if-ok, ok_inj,
}
use aipro.Prelude.Dict.{lookup}
use aipro.Numbers.{Number}
use aipro.Catalog.{has_duplicate}
use aipro.Telemetry.{
  ResourceAvailability, available, exhausted, unavailable, unknown, ProviderHealth,
  ProviderResourceSnapshot, labels, bad_amount, bad_ttl, is_exhausted_state, is_available_state,
  needs_reason, spent, masked, redacted, checked, snapshot_of, with_health,
}
use aipro.Telemetry.Ledger.{health_of}
use aipro.Telemetry.Sources.{unknown_raw, unknown_snapshot}
use aipro.Telemetry.Registry.{
  TelemetrySource, TelemetryRegistry, attach_health, or_failed, asked, snapshot,
}

said : (t : String) → ¬ (t ≡ "") → (t == "") ≡ false
said t h = elim (==-cases t "") [ inl (p, q) ↦ absurd (h q) | inr (p, q) ↦ p ]

module _ {F : Type 0} (n : Number F) where
  -- What an availability takes: spent only on evidence, available only without any, and neither known
  -- nor usable only with a reason.
  abbrev pub Shown : ResourceAvailability → Bool → String → Type 0
  Shown exhausted gone reason = gone ≡ true
  Shown available gone reason = gone ≡ false
  Shown unavailable gone reason = (reason == "") ≡ false
  Shown unknown gone reason = (reason == "") ≡ false

  unfoldable pub IsHonest : ProviderResourceSnapshot F → Type 0
  IsHonest s = Shown s.availability (spent n s) s.reason

  -- What the checks of the constructor leave.
  record IsChecked (s : ProviderResourceSnapshot F) : Type 0 where
    named : (s.resource == "") ≡ false
    distinct : has_duplicate (labels s.windows) ≡ false
    cash : bad_amount n s.cash_balance ≡ false
    timed : bad_ttl n s.ttl_seconds ≡ false
    exhausted_shown : (is_exhausted_state s.availability && not (spent n s)) ≡ false
    available_shown : (is_available_state s.availability && spent n s) ≡ false
    explained : (needs_reason s.availability && s.reason == "") ≡ false

  Shown-by :
      (a : ResourceAvailability) (gone : Bool) (reason : String)
      → (is_exhausted_state a && not gone) ≡ false
      → (is_available_state a && gone) ≡ false
      → (needs_reason a && reason == "") ≡ false
      → Shown a gone reason
  Shown-by available gone reason x y z = y
  Shown-by exhausted gone reason x y z = ground arith
  Shown-by unavailable gone reason x y z = z
  Shown-by unknown gone reason x y z = z

  IsChecked-IsHonest : (s : ProviderResourceSnapshot F) → IsChecked s → IsHonest s
  unfolding IsHonest
  IsChecked-IsHonest s c =
      Shown-by s.availability (spent n s) s.reason c.exhausted_shown c.available_shown c.explained

  checked-IsChecked :
      (t s : ProviderResourceSnapshot F)
      → (t.resource == "") ≡ false
      → checked n t ≡ ok s
      → IsChecked s
  unfolding checked
  checked-IsChecked t s named h =
      let (b, h2) = raise_if-ok (has_duplicate (labels t.windows)) telemetry_error _ h in
      let (c, h3) = raise_if-ok (bad_amount n t.cash_balance) telemetry_error _ h2 in
      let (d, h4) = raise_if-ok (bad_ttl n t.ttl_seconds) telemetry_error _ h3 in
      let (e, h5) =
        raise_if-ok (is_exhausted_state t.availability && not (spent n t)) telemetry_error _ h4 in
      let (f, h6) =
        raise_if-ok (is_available_state t.availability && spent n t) telemetry_error _ h5 in
      let (g, h7) =
        raise_if-ok (needs_reason t.availability && t.reason == "") telemetry_error _ h6 in
      let all_passed : IsChecked t = record {
        named = named;
        distinct = b;
        cash = c;
        timed = d;
        exhausted_shown = e;
        available_shown = f;
        explained = g;
      } in
      subst IsChecked (ok_inj h7) all_passed

  IsChecked-checked : (t : ProviderResourceSnapshot F) → IsChecked t → checked n t ≡ ok t
  unfolding checked
  IsChecked-checked t c =
      rw (c.distinct, c.cash, c.timed, c.exhausted_shown, c.available_shown, c.explained) refl

  module _ (redact : String → String) where
    snapshot_of-IsChecked :
        (raw s : ProviderResourceSnapshot F) → snapshot_of n redact raw ≡ ok s → IsChecked s
    unfolding snapshot_of
    snapshot_of-IsChecked raw s h =
        let (a, rest) = raise_if-ok (raw.resource == "") telemetry_error _ h in
        checked-IsChecked (redacted n redact raw) s a rest

    -- Every snapshot that is constructed claims no more than its evidence: exhausted only with a spent
    -- window or an empty balance, available only without one, unavailable or unknown only with a reason.
    pub snapshot_of-IsHonest :
        (raw s : ProviderResourceSnapshot F) → snapshot_of n redact raw ≡ ok s → IsHonest s
    snapshot_of-IsHonest raw s h = IsChecked-IsHonest s (snapshot_of-IsChecked raw s h)

    -- The masking of credentials leaves something of a text.
    module _ (keeps : (t : String) → (t == "") ≡ false → (redact t == "") ≡ false) where
      masked_kept : (t : String) → (t == "") ≡ false → (masked n redact t == "") ≡ false
      unfolding masked
      masked_kept t h = rw h (keeps t h)

      -- A checked snapshot passes the checks again with any health.
      checked_again :
          (s : ProviderResourceSnapshot F) (h : ProviderHealth F)
          → IsChecked s
          → with_health n redact h s ≡ ok (redacted n redact (record s { health = h }))
      unfolding snapshot_of spent
      checked_again s h c = rw c.named (
          IsChecked-checked (redacted n redact (record s { health = h })) (record {
            named = c.named;
            distinct = c.distinct;
            cash = c.cash;
            timed = c.timed;
            exhausted_shown = c.exhausted_shown;
            available_shown = c.available_shown;
            explained = still s.availability s.reason c.explained;
          }))
        where
          still :
              (a : ResourceAvailability) (t : String)
              → (needs_reason a && t == "") ≡ false
              → (needs_reason a && masked n redact t == "") ≡ false
          still available t e = refl
          still exhausted t e = refl
          still unavailable t e = masked_kept t e
          still unknown t e = masked_kept t e

      unknown_made :
          (r reason : String) (now : ℕ)
          → (r == "") ≡ false
          → (reason == "") ≡ false
          → (s : ProviderResourceSnapshot F) × (unknown_snapshot n redact r reason now none ""
              ≡ ok s)
            × (s.availability ≡ unknown)
            × IsChecked s
      unfolding unknown_snapshot snapshot_of spent has_duplicate
      unknown_made r reason now a b = (
        redacted n redact (unknown_raw n redact r reason now none ""),
        rw a (
            IsChecked-checked (redacted n redact (unknown_raw n redact r reason now none ""))
              passed),
        refl,
        passed,
      )
        where
          passed : IsChecked (redacted n redact (unknown_raw n redact r reason now none ""))
          passed = record {
            named = a;
            distinct = refl;
            cash = refl;
            timed = refl;
            exhausted_shown = refl;
            available_shown = refl;
            explained = rw b (masked_kept reason b);
          }

      module _ (quoted : String → String) (described : Error → String) where
        abbrev ask : TelemetryRegistry F → String → ℕ → Result (ProviderResourceSnapshot F)
        ask = snapshot n redact quoted described

        -- The quota data are as they were.
        attached :
            (t : TelemetryRegistry F) (s : ProviderResourceSnapshot F)
            → IsChecked s
            → (v : ProviderResourceSnapshot F) × (attach_health n redact quoted described t s
                ≡ ok v)
              × (v.availability ≡ s.availability)
              × (v.windows ≡ s.windows)
              × IsHonest v
        attached t s c = elim (Option-cases t.ledger) [
          | inl e ↦ (s, rw e refl, refl, refl, IsChecked-IsHonest s c)
          | inr (l, e) ↦
              let again = checked_again s (health_of l s.resource) c in
              (
                redacted n redact (record s { health = health_of l s.resource }),
                rw e again,
                refl,
                refl,
                snapshot_of-IsHonest (record s { health = health_of l s.resource }) _ again,
              )
        ]

        -- What a source that raises is answered with.
        failed_made :
            (r : String) (now : ℕ) (source : TelemetrySource F) (e : Error)
            → (r == "") ≡ false
            → source.snapshot r now ≡ err e
            → (s : ProviderResourceSnapshot F) × (or_failed n redact quoted described r now
                  (source.snapshot r now)
                ≡ ok s)
              × (s.availability ≡ unknown)
              × IsChecked s
        failed_made r now source e named raised =
            let (s, made, shown, c) =
              unknown_made r (join "telemetry source failed: " (described e)) now named (
                said _ (λ q.
                  cons≢nil (sym (cons-append "t" "elemetry source failed: " (described e)) ∙ q))) in
            (s, ap (or_failed n redact quoted described r now) raised ∙ made, shown, c)

        source_made :
            (r : String) (now : ℕ) (source : TelemetrySource F)
            → (r == "") ≡ false
            → ((s : ProviderResourceSnapshot F)
                → source.snapshot r now ≡ ok s
                → (raw : ProviderResourceSnapshot F) × (snapshot_of n redact raw ≡ ok s))
            → (s : ProviderResourceSnapshot F) × (asked n redact quoted described r now
                  (some source)
                ≡ ok s)
              × IsChecked s
        source_made r now source named built = elim (Result-cases (source.snapshot r now)) [
          | inl (s, e) ↦
              let (raw, made) = built s e in
              (
                s,
                ap (or_failed n redact quoted described r now) e,
                snapshot_of-IsChecked raw s made,
              )
          | inr (x, e) ↦
              let (s, made, shown, c) = failed_made r now source x named e in (s, made, c)
        ]

        -- The registry's answer, from what was asked.
        answer :
            (t : TelemetryRegistry F) (r : String) (now : ℕ) (o : Option (TelemetrySource F))
            (s : ProviderResourceSnapshot F)
            → lookup r t.owner ≡ o
            → asked n redact quoted described r now o ≡ ok s
            → IsChecked s
            → (v : ProviderResourceSnapshot F) × (snapshot n redact quoted described t r now ≡ ok v)
              × (v.availability ≡ s.availability)
              × IsHonest v
        unfolding snapshot
        answer t r now o s owned made c =
            let (v, answered, same, windows, honest) = attached t s c in
            (
              v,
              ap
                    (λ x.
                      asked n redact quoted described r now x
                      >>= attach_health n redact quoted described t)
                    owned
                  ∙ ap (λ x. x >>= attach_health n redact quoted described t) made
                  ∙ answered,
              same,
              honest,
            )

        -- A resource whose source raises is reported as unknown, with a reason, never as spent and never
        -- as available, provided that the masking leaves something of a text.
        pub snapshot-unknown :
            (t : TelemetryRegistry F) (r : String) (now : ℕ) (source : TelemetrySource F)
            (e : Error)
            → (r == "") ≡ false
            → lookup r t.owner ≡ some source
            → source.snapshot r now ≡ err e
            → (v : ProviderResourceSnapshot F) × (snapshot n redact quoted described t r now ≡ ok v)
              × (v.availability ≡ unknown)
              × IsHonest v
        snapshot-unknown t r now source e named owned raised =
            let (s, made, shown, c) = failed_made r now source e named raised in
            let (v, answered, same, honest) = answer t r now (some source) s owned made c in
            (v, answered, same ∙ shown, honest)

        -- Whatever the source of a resource raises, the registry answers for the resource, and
        -- honestly, provided that a snapshot that the source returns was constructed, and that the
        -- masking leaves something of a text.
        pub snapshot-IsHonest :
            (t : TelemetryRegistry F) (r : String) (now : ℕ)
            → (r == "") ≡ false
            → ((source : TelemetrySource F) (s : ProviderResourceSnapshot F)
                → lookup r t.owner ≡ some source
                → source.snapshot r now ≡ ok s
                → (raw : ProviderResourceSnapshot F) × (snapshot_of n redact raw ≡ ok s))
            → (v : ProviderResourceSnapshot F) × (snapshot n redact quoted described t r now ≡ ok v)
              × IsHonest v
        snapshot-IsHonest t r now named built = elim (Option-cases (lookup r t.owner)) [
          | inl none_owns ↦
              let (s, made, shown, c) =
                unknown_made r (join (quoted r) " is not served by any configured telemetry source")
                  now named (said _ (append-ne-nil_of_right_ne-nil (quoted r) (λ q. cons≢nil q))) in
              let (v, answered, same, honest) = answer t r now none s none_owns made c in
              (v, answered, honest)
          | inr (source, owned) ↦
              let (s, made, c) = source_made r now source named (λ s. built source s owned) in
              let (v, answered, same, honest) = answer t r now (some source) s owned made c in
              (v, answered, honest)
        ]
