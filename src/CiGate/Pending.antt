-- ===== src/CiGate/Pending.antt =====
-- A required check that has not reported is pending, never silently green.
use aipro.Prelude.{
  String, Bool, true, false, Option, List, [], ◌∷◌, ◌++◌, ◌≡◌, ◌≢◌, refl, sym, subst, inl, inr, In,
  In-append_left, In-append_right, In-filter_intro, arith, is_empty, contains, contains_iff,
  string_eq, Bool-cases, ==-cases, ◌∙◌, if◌then◌else◌, ◌&&◌, ◌||◌, ◌==◌, ok, any, all, all-In,
  ok_inj, All, false≢true, eq_iff,
}
use aipro.Config.{CiPolicyConfig}
use aipro.Interfaces.{GateDecision, gate_decision}
use aipro.CiGate.{
  CheckRun, Tally, run_passed, status_passed, count_report, count_reports, extend_pending,
  first_of_each, tally, missing_required, without_reports, evaluate,
}
use aipro.CiGate.Sets.{In-sorted_set}
use aipro.CiGate.Verdict.{reported, has-tally, some_reports, passes_as}

-- No report is filed under the name.
abbrev Silent : String → List CheckRun → Type 0
Silent n rs = All (λ r. r.name ≢ n) rs

contains-snoc :
    (n m : String) (xs : List String) → contains n (xs ++ m ∷ []) ≡ (contains n xs || m == n)
unfolding contains
contains-snoc n m [] = ground arith
contains-snoc n m (x ∷ xs) = ground (arith, contains-snoc n m xs)

failed-Silent :
    (accepts : Option String → Bool) (n : String) (t : Tally) (rs : List CheckRun)
    → Silent n rs
    → contains n (count_reports accepts t rs).failed ≡ contains n t.failed
unfolding count_reports count_report
failed-Silent accepts n t [] q = refl
failed-Silent accepts n t (r ∷ rs) (other, q) =
    failed-Silent accepts n (count_report accepts t r) rs q
    ∙ ground (arith, contains-snoc n r.name t.failed, eq_iff r.name n)

any-Silent :
    (accepts : Option String → Bool) (n : String) (rs : List CheckRun)
    → Silent n rs
    → any (passes_as accepts n) rs ≡ false
unfolding any
any-Silent accepts n [] q = refl
any-Silent accepts n (r ∷ rs) (other, q) =
    ground (arith, any-Silent accepts n rs q, eq_iff r.name n)

In-extend_old :
    (a : String) (failed pending ns : List String)
    → In a pending
    → In a (extend_pending failed pending ns)
unfolding extend_pending
In-extend_old a failed pending [] m = m
In-extend_old a failed pending (n ∷ ns) m =
    In-extend_old a failed
      (if contains n pending || contains n failed then pending else pending ++ n ∷ []) ns
      (elim (Bool-cases (contains n pending || contains n failed)) [
        | inl t ↦ rw t m
        | inr t ↦ rw t (In-append_left a pending (n ∷ []) m)
      ])

In-extend :
    (a : String) (failed pending ns : List String)
    → contains a failed ≡ false
    → In a ns
    → In a (extend_pending failed pending ns)
unfolding extend_pending
In-extend a failed pending [] h m = absurd m
In-extend a failed pending (n ∷ ns) h (inr m) =
    In-extend a failed
      (if contains n pending || contains n failed then pending else pending ++ n ∷ []) ns h m
In-extend a failed pending (n ∷ ns) h (inl e) =
    In-extend_old a failed
      (if contains n pending || contains n failed then pending else pending ++ n ∷ []) ns
      (elim (Bool-cases (contains n pending)) [
        | inl t ↦ rw t (subst (λ x. In x pending) e ((contains_iff n pending).0 t))
        | inr t ↦ rw (t, absent) (In-append_right a pending (n ∷ []) (inl e))
      ])
  where
    absent : contains n failed ≡ false
    absent = rw e h

In-first_of_each :
    (a : String) (seen ns : List String)
    → contains a seen ≡ false
    → In a ns
    → In a (first_of_each seen ns)
unfolding first_of_each contains
In-first_of_each a seen [] h m = absurd m
In-first_of_each a seen (n ∷ ns) h m = elim (==-cases n a) [
  | inl (t, e) ↦ rw (e, h) (inl refl)
  | inr (t, e) ↦ elim m [
    | inl q ↦ absurd (e q)
    | inr k ↦ elim (Bool-cases (contains n seen)) [
      | inl u ↦ rw u (In-first_of_each a seen ns h k)
      | inr u ↦ rw u (inr (In-first_of_each a (n ∷ seen) ns (ground (arith, h, t)) k))
    ]
  ]
]

In-not_empty : {A : Type 0} (a : A) (xs : List A) → In a xs → is_empty xs ≡ false
In-not_empty a [] m = absurd m
In-not_empty a (x ∷ xs) m = refl

module _ (cfg : CiPolicyConfig) (runs statuses : List CheckRun) (n : String) where
  missing-Silent :
      Silent n runs
      → Silent n statuses
      → In n cfg.required_checks
      → In n (missing_required cfg (tally runs statuses))
  unfolding missing_required
  missing-Silent qr qs m = In-filter_intro _ n cfg.required_checks m (
      rw (has-tally runs statuses n)
        (ground (arith, any-Silent run_passed n runs qr, any-Silent status_passed n statuses qs)))

  not-reported : Silent n runs → Silent n statuses → reported runs statuses n ≡ false
  not-reported qr qs =
      ground (arith, any-Silent run_passed n runs qr, any-Silent status_passed n statuses qs)

  pending_filed :
      (d : GateDecision)
      → (is_empty runs && is_empty statuses) ≡ false
      → evaluate cfg runs statuses ≡ ok d
      → Silent n runs
      → Silent n statuses
      → In n cfg.required_checks
      → In n d.pending_checks × (d.passed ≡ false)
  unfolding tally contains
  pending_filed d some_reported e qr qs m =
      let (d', e', p, q) = some_reports cfg runs statuses some_reported in
      let same : d' ≡ d = ok_inj (sym e' ∙ e) in
      (
        subst (λ x. In n x.pending_checks) same
            (subst (In n) (sym q)
              ((In-sorted_set n _).1 (rw (In-not_empty n cfg.required_checks m) listed))),
        elim (Bool-cases d.passed) [
          | inr f ↦ f
          | inl t ↦
              let all_in : all (reported runs statuses) cfg.required_checks ≡ true =
                ground (arith, some_reported, p, same, t) in
              absurd
                (false≢true (sym (not-reported qr qs) ∙ all-In _ n cfg.required_checks all_in m))
        ],
      )
    where
      unfailed : contains n (tally runs statuses).failed ≡ false
      unfailed = failed-Silent status_passed n _ statuses qs ∙ failed-Silent run_passed n _ runs qr

      listed : In n (
          extend_pending
            (tally runs statuses).failed
            (tally runs statuses).pending
            (missing_required cfg (tally runs statuses)))
      listed = In-extend n _ _ _ unfailed (missing-Silent qr qs m)

silent_head :
    (cfg : CiPolicyConfig) (missing : List String) (d : GateDecision)
    → without_reports cfg missing ≡ ok d
    → is_empty missing ≡ false
    → (d.pending_checks ≡ first_of_each [] missing) × (d.passed ≡ false)
unfolding without_reports gate_decision
silent_head cfg missing d e f = ground (arith, f)

pending_unfiled :
    (cfg : CiPolicyConfig) (n : String) (d : GateDecision)
    → evaluate cfg [] [] ≡ ok d
    → In n cfg.required_checks
    → In n d.pending_checks × (d.passed ≡ false)
unfolding evaluate contains
pending_unfiled cfg n d e m =
    let absent = missing-Silent cfg [] [] n tt tt m in
    let (p, f) = silent_head cfg _ d e (In-not_empty n _ absent) in
    (subst (In n) (sym p) (In-first_of_each n [] _ refl absent), f)

-- A required check under whose name neither a run nor a status was filed is among the pending
-- checks of the decision, and the decision does not pass.
pub required_pending :
    (cfg : CiPolicyConfig) (runs statuses : List CheckRun) (n : String) (d : GateDecision)
    → evaluate cfg runs statuses ≡ ok d
    → All (λ r. r.name ≢ n) runs
    → All (λ r. r.name ≢ n) statuses
    → In n cfg.required_checks
    → In n d.pending_checks × (d.passed ≡ false)
required_pending cfg [] [] n d e qr qs m = pending_unfiled cfg n d e m
required_pending cfg [] (s ∷ ss) n d e qr qs m = pending_filed cfg [] (s ∷ ss) n d refl e qr qs m
required_pending cfg (r ∷ rs) statuses n d e qr qs m =
    pending_filed cfg (r ∷ rs) statuses n d refl e qr qs m
