-- ===== src/Broker/Occupancy.antt =====
-- The counters of the broker agree with the leases that it gave out, and stay within the caps.
use Prim.Native.String.{◌++◌ as join}
use aipro.Prelude.{
  ℕ, suc, ◌+◌, ◌-◌, String, Bool, true, false, some, ltb, not, ◌||◌, ◌==◌, string_eq, nat_eq,
  ==-cases, ==_refl, if◌then◌else◌, ◌≡◌, refl, sym, ap, ◌∙◌, subst, arith, Bool-cases, Option-cases,
  inl, inr,
}
use aipro.Prelude.Dict.{
  Dict, lookup, insert, delete, has, Unique, insert-Unique, has-insert, has-delete, lookup-insert,
}
use aipro.Broker.{ModelAssignment}
use aipro.Broker.Capacity.{
  Capacity, no_capacity_taken, or_zero, count_at, numbered, take_slot, one_less, give_slot, release,
}
use aipro.Broker.Leases.{
  one_if, held, delete-Unique, held-insert, held-delete, NumberedBelow, NumberedBelow-suc,
  NumberedBelow-delete, NumberedBelow-insert, numbered_form, fresh,
}

-- Each model has as many outstanding slots as leases, lease ids are distinct and older than the next
-- one, and what was seen of a model elsewhere is kept only while it has a lease.
pub record IsSound (s : Capacity) : Type 0 where
  pub counted : (r : String) → count_at r s.outstanding ≡ held r s.leases
  pub unique : Unique s.leases
  pub issued : NumberedBelow s.next_lease_seq s.leases
  pub kept : (r : String) → (ltb 0 (count_at r s.outstanding) || not (has r s.external)) ≡ true

pub no_capacity_taken-IsSound : IsSound no_capacity_taken
unfolding lookup held
no_capacity_taken-IsSound = record {
  counted = λ r. refl;
  unique = tt;
  issued = tt;
  kept = λ r. refl;
}

pub count_at-insert :
    (k j : String) (v : ℕ) (d : Dict ℕ)
    → count_at j (insert k v d) ≡ (if k == j then v else count_at j d)
count_at-insert k j v d = ap or_zero (lookup-insert k j v d) ∙ ground arith

pub count_at-one_less :
    (k j : String) (d : Dict ℕ) → count_at j (one_less k d) ≡ count_at j d - one_if (k == j)
count_at-one_less k j d = elim (==-cases k j) [
  | inl (t, e) ↦ elim (Bool-cases (ltb 0 (count_at k d))) [
    | inl p ↦
        rw (p, t) (count_at-insert k j (count_at k d - 1) d ∙ rw t (ap (λ x. count_at x d - 1) e))
    | inr p ↦ rw (p, t) (subst (λ x. count_at x d ≡ count_at x d - 1) e (ground arith))
  ]
  | inr (t, e) ↦ elim (Bool-cases (ltb 0 (count_at k d))) [
    | inl p ↦ rw (p, t) (count_at-insert k j (count_at k d - 1) d ∙ rw t (omega arith))
    | inr p ↦ rw (p, t) (omega arith)
  ]
]

count_at-other :
    (k j : String) (d : Dict ℕ) → (k == j) ≡ false → count_at j (one_less k d) ≡ count_at j d
count_at-other k j d t = count_at-one_less k j d ∙ rw t (omega arith)

pub take_slot-IsSound :
    (s : Capacity) (a : ModelAssignment) (ext : ℕ) → IsSound s → IsSound (take_slot s a ext)
unfolding take_slot
take_slot-IsSound s a ext i = record {
  counted = λ r.
      count_at-insert a.model_ref r (suc (count_at a.model_ref s.outstanding)) s.outstanding
      ∙ counted_by r
      ∙ sym (held-insert r id a.model_ref s.leases unused);
  unique = insert-Unique id a.model_ref s.leases i.unique;
  issued =
      NumberedBelow-insert (suc s.next_lease_seq) id a.model_ref s.leases
        (
          join a.lane (join ":" a.model_ref),
          s.next_lease_seq,
          omega arith,
          numbered_form a.lane a.model_ref s.next_lease_seq,
        )
        (NumberedBelow-suc s.next_lease_seq s.leases i.issued);
  kept = λ r.
      rw
        (
          count_at-insert a.model_ref r (suc (count_at a.model_ref s.outstanding)) s.outstanding,
          has-insert a.model_ref r ext s.external,
        )
        (kept_by (a.model_ref == r) (count_at a.model_ref s.outstanding) (count_at r s.outstanding)
          (has r s.external) (i.kept r));
}
  where
    id : String
    id = numbered a.lane a.model_ref s.next_lease_seq

    unused : has id s.leases ≡ false
    unused = fresh a.lane a.model_ref s.next_lease_seq s.leases i.issued

    counted_by :
        (r : String)
        → (if a.model_ref == r
            then suc (count_at a.model_ref s.outstanding)
            else count_at r s.outstanding)
          ≡ one_if (a.model_ref == r) + held r s.leases
    counted_by r = elim (==-cases a.model_ref r) [
      | inl (t, e) ↦
          rw t (ap (λ x. suc (count_at x s.outstanding)) e ∙ ap suc (i.counted r) ∙ omega arith)
      | inr (t, e) ↦ rw t (i.counted r ∙ omega arith)
    ]

    kept_by :
        (b : Bool) (k m : ℕ) (h : Bool)
        → (ltb 0 m || not h) ≡ true
        → (ltb 0 (if b then suc k else m) || not (b || h)) ≡ true
    kept_by true k m h e = ground arith
    kept_by false k m h e = e

give_slot-IsSound :
    (s : Capacity) (id ref : String)
    → IsSound s
    → lookup id s.leases ≡ some ref
    → IsSound (give_slot s id (some ref))
give_slot-IsSound s id ref i found = record {
  counted = λ r.
      count_at-one_less ref r s.outstanding
      ∙ ap (λ k. k - one_if (ref == r)) (i.counted r ∙ held-delete r id ref s.leases i.unique found)
      ∙ omega arith;
  unique = delete-Unique id s.leases i.unique;
  issued = NumberedBelow-delete s.next_lease_seq id s.leases i.issued;
  kept = λ r. elim (==-cases ref r) [
    | inl (t, e) ↦ subst (λ x. Kept x) e own
    | inr (t, e) ↦
        rw (count_at-other ref r s.outstanding t)
          (elim (Bool-cases (count_at ref (one_less ref s.outstanding) == 0)) [
            | inl z ↦ rw (z, has-delete ref r s.external, t) (i.kept r ∙ refl)
            | inr z ↦ rw z (i.kept r ∙ refl)
          ])
  ];
}
  where
    Kept : String → Type 0
    Kept x =
        (ltb 0 (count_at x (one_less ref s.outstanding))
          || not (
              has x (
                if count_at ref (one_less ref s.outstanding) == 0
                then delete ref s.external
                else s.external)))
        ≡ true

    own : Kept ref
    own = elim (Bool-cases (count_at ref (one_less ref s.outstanding) == 0)) [
      | inl z ↦ rw (z, has-delete ref ref s.external, ==_refl ref) (ground arith)
      | inr z ↦ rw z (ground arith)
    ]

pub release-IsSound : (s : Capacity) (id : String) → IsSound s → IsSound (release s id)
unfolding release
release-IsSound s id i = elim (Option-cases (lookup id s.leases)) [
  | inl e ↦ subst (λ o. IsSound (give_slot s id o)) (sym e) i
  | inr (ref, e) ↦ subst (λ o. IsSound (give_slot s id o)) (sym e) (give_slot-IsSound s id ref i e)
]
