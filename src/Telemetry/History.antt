-- ===== src/Telemetry/History.antt =====
-- What the health ledger holds after any history of calls of `record`.
use aipro.Prelude.{
  ℕ, ◌≤◌, String, true, Option, List, [], ◌∷◌, ◌++◌, length, ltb, if◌then◌else◌, ◌==◌, string_eq,
  ==-cases, ◌≡◌, sym, ap, ◌∙◌, subst, arith, Bool-cases, inl, inr, ltb_false→le, Result, ok, err,
  ok_inj, ◌>>=◌, >>=-eq-ok, raise_if, Error,
}
use aipro.Prelude.Dict.{lookup, lookup-insert}
use aipro.Numbers.{Number}
use aipro.Telemetry.{RequestOutcome, total, bad_amount}
use aipro.Telemetry.Ledger.{
  Event, ProviderHealthLedger, append_bounded, ring_of, ledger, health_of, record_outcome, recorded,
  or_empty, no_events,
}
use aipro.Telemetry.Ring.{
  last_n, last_n_nil, append_bounded-last_n, append_assoc_one, append_nil, length-last_n,
  total-summary, failures_in_a_row,
}

-- A call of `record`: resource, outcome, instant, latency and back-off.
abbrev pub Call : Type 0 → Type 0
Call F = String × RequestOutcome × ℕ × Option F × Option ℕ

module _ {F : Type 0} (n : Number F) where
  -- The calls one after the other; the first that is refused ends them.
  unfoldable pub record_all :
      ProviderHealthLedger F → List (Call F) → Result (ProviderHealthLedger F)
  record_all l [] = ok l
  record_all l ((r, o, now, ms, until) ∷ calls) =
      record_outcome n l r o now ms until >>= λ next. record_all next calls

  -- The outcomes of the calls on a resource.
  unfoldable pub outcomes_on : String → List (Call F) → List (Event F)
  outcomes_on r [] = []
  outcomes_on r ((s, o, now, ms, until) ∷ calls) =
      let rest = outcomes_on r calls in if s == r then (o, ms) ∷ rest else rest

  record_outcome-ok :
      (l m : ProviderHealthLedger F) (r : String) (o : RequestOutcome) (now : ℕ) (ms : Option F)
      (until : Option ℕ)
      → record_outcome n l r o now ms until ≡ ok m
      → recorded l r (o, ms) now until ≡ m
  unfolding record_outcome
  record_outcome-ok l m r o now ms until h =
      let (u, passed, made) = >>=-eq-ok (raise_if (bad_amount n ms) _) _ h in ok_inj made

  ring_of-recorded :
      (l : ProviderHealthLedger F) (q r : String) (e : Event F) (now : ℕ) (until : Option ℕ)
      → ring_of q (recorded l r e now until).events ≡ (
          if r == q
          then append_bounded l.window_size (ring_of r l.events) e
          else ring_of q l.events)
  unfolding ring_of
  ring_of-recorded l q r e now until =
      ap or_empty (lookup-insert r q (append_bounded l.window_size (ring_of r l.events) e) l.events)
      ∙ ground arith

  record_all_from :
      (calls : List (Call F)) (l m : ProviderHealthLedger F) (q : String) (before : List (Event F))
      → 1 ≤ l.window_size
      → ring_of q l.events ≡ last_n l.window_size before
      → record_all l calls ≡ ok m
      → (ring_of q m.events ≡ last_n l.window_size (before ++ outcomes_on q calls))
        × (m.window_size ≡ l.window_size)
  unfolding record_all outcomes_on
  record_all_from [] l m q before one at h =
      let e = ok_inj h in
      (
        ap (λ x. ring_of q x.events) (sym e)
            ∙ at
            ∙ ap (last_n l.window_size) (sym (append_nil before)),
        ap (λ x. x.window_size) (sym e),
      )
  record_all_from ((r, o, now, ms, until) ∷ calls) l m q before one at h =
      let (next, first, rest) = >>=-eq-ok (record_outcome n l r o now ms until) _ h in
      let e = record_outcome-ok l next r o now ms until first in
      let rest' = subst (λ x. record_all x calls ≡ ok m) (sym e) rest in
      elim (==-cases r q) [
        | inl (t, same) ↦
            let (ring, size) =
              record_all_from calls (recorded l r (o, ms) now until) m q (before ++ (o, ms) ∷ [])
                one (grown t same) rest' in
            rw t (
              ring
                  ∙ ap (last_n l.window_size)
                      (append_assoc_one before (outcomes_on q calls) (o, ms)),
              size,
            )
        | inr (t, other) ↦ rw t (
            record_all_from calls (recorded l r (o, ms) now until) m q before one
              (ring_of-recorded l q r (o, ms) now until ∙ rw t at) rest')
      ]
    where
      grown :
          (r == q) ≡ true
          → r ≡ q
          → ring_of q (recorded l r (o, ms) now until).events
            ≡ last_n l.window_size (before ++ (o, ms) ∷ [])
      grown t same =
          ring_of-recorded l q r (o, ms) now until
          ∙ rw t (
              ap (λ x. append_bounded l.window_size (ring_of x l.events) (o, ms)) same
              ∙ ap (λ xs. append_bounded l.window_size xs (o, ms)) at
              ∙ append_bounded-last_n l.window_size before (o, ms) one)

  ledger-ok : (w : ℕ) (l : ProviderHealthLedger F) → ledger w ≡ ok l → (1 ≤ w) × (no_events w ≡ l)
  unfolding ledger
  ledger-ok w l h = elim (Bool-cases (ltb w 1)) [
    | inl t ↦ absurd (refused (rw t at h))
    | inr t ↦ (ltb_false→le w 1 t, ok_inj (rw t at h))
  ]
    where
      refused : {e : Error} → ¬ (err e ≡ ok l)
      refused q = cc

  module _ (w : ℕ) (l m : ProviderHealthLedger F) (calls : List (Call F)) (r : String) where
    ring_of-last_n :
        ledger w ≡ ok l
        → record_all l calls ≡ ok m
        → ring_of r m.events ≡ last_n w (outcomes_on r calls)
    unfolding ring_of lookup
    ring_of-last_n new h =
        let (one, e) = ledger-ok w l new in
        let (ring, size) =
          record_all_from calls (no_events w) m r [] one (last_n_nil w)
            (subst (λ x. record_all x calls ≡ ok m) (sym e) h) in
        ring

    -- After any history of calls on a new ledger, the ring of a resource holds the last outcomes
    -- recorded for it, in order, as many as the window allows; its health counts as many requests as
    -- the ring holds, at most the window, and no more failures in a row than requests.
    pub health_of-window :
        ledger w ≡ ok l
        → record_all l calls ≡ ok m
        → (ring_of r m.events ≡ last_n w (outcomes_on r calls))
          × (total (health_of m r) ≡ length (last_n w (outcomes_on r calls)))
          × (total (health_of m r) ≤ w)
          × ((health_of m r).consecutive_failures ≤ total (health_of m r))
    unfolding health_of
    health_of-window new h =
        let ring = ring_of-last_n new h in
        let counted =
          total-summary (lookup r m.observed_at) (lookup r m.retry_after) (ring_of r m.events) in
        let in_a_row =
          failures_in_a_row (lookup r m.observed_at) (lookup r m.retry_after)
            (ring_of r m.events) in
        (
          ring,
          counted ∙ ap length ring,
          rw (counted, ring) (length-last_n w (outcomes_on r calls)),
          rw counted in_a_row,
        )
