-- ===== src/Broker/Turnover.antt =====
-- Histories of calls of `reserve` and `release`.
use aipro.Prelude.{
  ℕ, suc, ◌+◌, ◌-◌, ◌≤◌, String, Bool, true, false, Option, none, some, List, [], ◌∷◌, ltb, leb,
  ◌==◌, string_eq, nat_eq, ==-cases, ==_refl, ◌≡◌, refl, sym, ap, ◌∙◌, subst, arith, Bool-cases,
  Option-cases, inl, inr, Result, ok, err, broker_error, raise_if-ok, raise_if_passed, ok_inj,
  Result-cases,
}
use aipro.Prelude.Dict.{Dict, lookup, insert, delete, has, lookup-delete, lookup-insert}
use aipro.Numbers.{Number}
use aipro.Catalog.{ModelCatalog}
use aipro.Broker.{ModelAssignment, ModelLease}
use aipro.Broker.Capacity.{
  Capacity, no_capacity_taken, count_at, greater, numbered, full, take_slot, one_less, give_slot,
  release, cap_of, reserve,
}
use aipro.Broker.Leases.{one_if, held, delete-insert, held-delete, fresh}
use aipro.Broker.Occupancy.{
  IsSound, no_capacity_taken-IsSound, take_slot-IsSound, release-IsSound, count_at-insert,
  count_at-one_less,
}

pub data BrokerCall : Type 0 where
  reserving : ModelAssignment → ℕ → BrokerCall
  releasing : String → BrokerCall

-- At most the cap, where there is one.
abbrev pub within : Option ℕ → ℕ → Bool
within none total = true
within (some cap) total = leb total cap

within_less : (cap : Option ℕ) (t u : ℕ) → t ≤ u → within cap u ≡ true → within cap t ≡ true
within_less none t u h w = refl
within_less (some cap) t u h w = ground arith

within_next : (cap : Option ℕ) (k e : ℕ) → full cap (k + e) ≡ false → within cap (suc k + e) ≡ true
within_next none k e h = refl
within_next (some cap) k e h = ground arith

count_at-delete : (k j : String) (d : Dict ℕ) → count_at j (delete k d) ≤ count_at j d
count_at-delete k j d = elim (Bool-cases (k == j)) [
  | inl t ↦ rw (lookup-delete k j d, t) (omega arith)
  | inr t ↦ rw (lookup-delete k j d, t) (omega arith)
]

given :
    (s : Capacity) (id ref : String)
    → lookup id s.leases ≡ some ref
    → release s id ≡ give_slot s id (some ref)
unfolding release
given s id ref e = ap (give_slot s id) e

given_none : (s : Capacity) (id : String) → lookup id s.leases ≡ none → release s id ≡ s
unfolding release
given_none s id e = ap (give_slot s id) e

-- Releasing the lease from the second state leads back to the first.
abbrev GivenBack : Capacity → Capacity → String → Type 0
GivenBack s t id =
    ((release t id).leases ≡ s.leases)
    × ((r : String) → count_at r (release t id).outstanding ≡ count_at r s.outstanding)

given_back :
    (s : Capacity) (a : ModelAssignment) (ext : ℕ)
    → IsSound s
    → GivenBack s (take_slot s a ext) (numbered a.lane a.model_ref s.next_lease_seq)
unfolding take_slot
given_back s a ext i = (
  ap (λ x. x.leases) back ∙ delete-insert id a.model_ref s.leases unused,
  λ r.
      ap (λ x. count_at r x.outstanding) back
      ∙ count_at-one_less a.model_ref r
          (insert a.model_ref (suc (count_at a.model_ref s.outstanding)) s.outstanding)
      ∙ rw (count_at-insert a.model_ref r (suc (count_at a.model_ref s.outstanding)) s.outstanding)
          (elim (==-cases a.model_ref r) [
            | inl (t, e) ↦ rw t (omega arith ∙ ap (λ x. count_at x s.outstanding) e)
            | inr (t, e) ↦ rw t (omega arith)
          ]),
)
  where
    id : String
    id = numbered a.lane a.model_ref s.next_lease_seq

    unused : has id s.leases ≡ false
    unused = fresh a.lane a.model_ref s.next_lease_seq s.leases i.issued

    back : release (take_slot s a ext) id ≡ give_slot (take_slot s a ext) id (some a.model_ref)
    back =
        given (take_slot s a ext) id a.model_ref
          (lookup-insert id id a.model_ref s.leases ∙ rw (==_refl id) refl)

not_full :
    (cap : Option ℕ) (k m x : ℕ)
    → within cap (k + m) ≡ true
    → 1 ≤ k
    → x ≤ m
    → full cap ((k - 1) + x) ≡ false
not_full none k m x w h g = refl
not_full (some cap) k m x w h g = ground arith

greater-le : (a b m : ℕ) → a ≤ m → b ≤ m → greater a b ≤ m
greater-le a b m h g = elim (Bool-cases (ltb a b)) [ inl t ↦ rw t g | inr t ↦ rw t h ]

module _ {F : Type 0} (n : Number F) (c : ModelCatalog F) where
  -- The state after a call; a call that raises leaves it as it was.
  abbrev pub after : Capacity → Result (Capacity × ModelLease F) → Capacity
  after s (ok (t, lease)) = t
  after s (err e) = s

  unfoldable pub call : Capacity → BrokerCall → Capacity
  call s (reserving a ext) = after s (reserve n c s a ext)
  call s (releasing id) = release s id

  unfoldable pub calls : Capacity → List BrokerCall → Capacity
  calls s [] = s
  calls s (x ∷ xs) = calls (call s x) xs

  abbrev pub IsWithin : Capacity → Type 0
  IsWithin s =
      (r : String) → within (cap_of n c r) (count_at r s.outstanding + count_at r s.external) ≡ true

  pub reserve-ok :
      (s t : Capacity) (a : ModelAssignment) (ext : ℕ) (lease : ModelLease F)
      → reserve n c s a ext ≡ ok (t, lease)
      → (full
            (cap_of n c a.model_ref)
            (count_at a.model_ref s.outstanding + greater (count_at a.model_ref s.external) ext)
          ≡ false)
        × (take_slot s a (greater (count_at a.model_ref s.external) ext) ≡ t)
        × (numbered a.lane a.model_ref s.next_lease_seq ≡ lease.lease_id)
  unfolding reserve
  reserve-ok s t a ext lease h =
      let (room, made) =
        raise_if-ok
          (full (cap_of n c a.model_ref)
            (count_at a.model_ref s.outstanding + greater (count_at a.model_ref s.external) ext))
          broker_error _ h in
      (room, ap (λ p. p.0) (ok_inj made), ap (λ p. p.1.lease_id) (ok_inj made))

  reserve-IsWithin :
      (s : Capacity) (a : ModelAssignment) (ext : ℕ)
      → full (cap_of n c a.model_ref) (count_at a.model_ref s.outstanding + ext) ≡ false
      → IsWithin s
      → IsWithin (take_slot s a ext)
  unfolding take_slot
  reserve-IsWithin s a ext room w r =
      rw
        (
          count_at-insert a.model_ref r (suc (count_at a.model_ref s.outstanding)) s.outstanding,
          count_at-insert a.model_ref r ext s.external,
        )
        (elim (==-cases a.model_ref r) [
          | inl (t, e) ↦
              rw (t, ← e)
                (within_next (cap_of n c a.model_ref) (count_at a.model_ref s.outstanding) ext room)
          | inr (t, e) ↦ rw t (w r)
        ])

  give_slot-IsWithin :
      (s : Capacity) (id : String) (o : Option String) → IsWithin s → IsWithin (give_slot s id o)
  give_slot-IsWithin s id none w r = w r
  give_slot-IsWithin s id (some ref) w r =
      within_less (cap_of n c r) _ (count_at r s.outstanding + count_at r s.external) fewer (w r)
    where
      fewer :
          count_at r (give_slot s id (some ref)).outstanding
            + count_at r (give_slot s id (some ref)).external
          ≤ count_at r s.outstanding + count_at r s.external
      fewer = elim (Bool-cases (count_at ref (one_less ref s.outstanding) == 0)) [
        | inl z ↦
            rw (z, count_at-one_less ref r s.outstanding)
              (let d = count_at-delete ref r s.external in omega arith)
        | inr z ↦ rw (z, count_at-one_less ref r s.outstanding) (omega arith)
      ]

  call_kept :
      (s : Capacity) (x : BrokerCall)
      → IsSound s × IsWithin s
      → IsSound (call s x) × IsWithin (call s x)
  unfolding call release
  call_kept s (reserving a ext) (i, w) = elim (Result-cases (reserve n c s a ext)) [
    | inl ((t, lease), e) ↦
        let (room, made, id) = reserve-ok s t a ext lease e in
        let taken = greater (count_at a.model_ref s.external) ext in
        rw e (
          subst IsSound made (take_slot-IsSound s a taken i),
          subst IsWithin made (reserve-IsWithin s a taken room w),
        )
    | inr (x, e) ↦ rw e (i, w)
  ]
  call_kept s (releasing id) (i, w) =
      (release-IsSound s id i, give_slot-IsWithin s id (lookup id s.leases) w)

  pub calls_kept :
      (s : Capacity) (xs : List BrokerCall)
      → IsSound s × IsWithin s
      → IsSound (calls s xs) × IsWithin (calls s xs)
  unfolding calls
  calls_kept s [] h = h
  calls_kept s (x ∷ xs) h = calls_kept (call s x) xs (call_kept s x h)

  pub no_capacity_taken_kept : IsSound no_capacity_taken × IsWithin no_capacity_taken
  unfolding lookup
  no_capacity_taken_kept = (no_capacity_taken-IsSound, λ r. nothing_taken (cap_of n c r))
    where
      nothing_taken : (cap : Option ℕ) → within cap 0 ≡ true
      nothing_taken none = refl
      nothing_taken (some cap) = ground arith

  slot_free :
      (s : Capacity) (id : String) (a : ModelAssignment) (ext : ℕ)
      → IsSound s
      → IsWithin s
      → lookup id s.leases ≡ some a.model_ref
      → ext ≤ count_at a.model_ref s.external
      → full (cap_of n c a.model_ref) (
          count_at a.model_ref (release s id).outstanding
          + greater (count_at a.model_ref (release s id).external) ext)
        ≡ false
  slot_free s id a ext i w found seen =
      subst (λ x. Free x) (sym (given s id ref found))
        (subst
          (λ k.
            full (cap_of n c ref)
              (k + greater (count_at ref (give_slot s id (some ref)).external) ext)
            ≡ false)
          (sym (
            count_at-one_less ref ref s.outstanding
            ∙ ap (λ b. count_at ref s.outstanding - one_if b) (==_refl ref)))
          (not_full (cap_of n c ref) (count_at ref s.outstanding) (count_at ref s.external) _
            (w ref) some_held (greater-le _ ext _ kept_less seen)))
    where
      ref : String
      ref = a.model_ref

      Free : Capacity → Type 0
      Free x =
          full (cap_of n c ref) (count_at ref x.outstanding + greater (count_at ref x.external) ext)
          ≡ false

      some_held : 1 ≤ count_at ref s.outstanding
      some_held =
          rw (i.counted ref, held-delete ref id ref s.leases i.unique found, ==_refl ref)
            (omega arith)

      kept_less : count_at ref (give_slot s id (some ref)).external ≤ count_at ref s.external
      kept_less = elim (Bool-cases (count_at ref (one_less ref s.outstanding) == 0)) [
        | inl z ↦ rw z (count_at-delete ref ref s.external)
        | inr z ↦ rw z (omega arith)
      ]

  -- After any history of reservations and releases, a model has as many outstanding slots as leases
  -- that are held for it, and with those that were seen elsewhere it stays within its cap.
  pub outstanding-within :
      (history : List BrokerCall) (r : String)
      → (count_at r (calls no_capacity_taken history).outstanding
          ≡ held r (calls no_capacity_taken history).leases)
        × (within (cap_of n c r) (
              held r (calls no_capacity_taken history).leases
              + count_at r (calls no_capacity_taken history).external)
            ≡ true)
  outstanding-within history r =
      let (i, w) = calls_kept no_capacity_taken history no_capacity_taken_kept in
      (i.counted r, rw (← i.counted r) (w r))

  -- A slot that is reserved and given back leaves the leases as they were, and every count of slots.
  pub release-reserve :
      (history : List BrokerCall) (a : ModelAssignment) (ext : ℕ) (t : Capacity)
      (lease : ModelLease F)
      → reserve n c (calls no_capacity_taken history) a ext ≡ ok (t, lease)
      → ((release t lease.lease_id).leases ≡ (calls no_capacity_taken history).leases)
        × ((r : String)
            → count_at r (release t lease.lease_id).outstanding
              ≡ count_at r (calls no_capacity_taken history).outstanding)
  release-reserve history a ext t lease h =
      let s = calls no_capacity_taken history in
      let (room, made, id) = reserve-ok s t a ext lease h in
      let taken = take_slot s a (greater (count_at a.model_ref s.external) ext) in
      subst (λ x. GivenBack s x lease.lease_id) made
        (subst (λ x. GivenBack s taken x) id
          (given_back s a (greater (count_at a.model_ref s.external) ext)
            (calls_kept no_capacity_taken history no_capacity_taken_kept).0))

  -- Releasing a lease twice is releasing it once, in every state.
  pub release_again : (s : Capacity) (id : String) → release (release s id) id ≡ release s id
  unfolding release
  release_again s id = elim (Option-cases (lookup id s.leases)) [
    | inl e ↦ ap (λ x. release x id) (given_none s id e)
    | inr (ref, e) ↦ given_none (release s id) id (gone ref e)
  ]
    where
      gone : (ref : String) → lookup id s.leases ≡ some ref → lookup id (release s id).leases ≡ none
      gone ref e =
          ap (λ x. lookup id x.leases) (given s id ref e)
          ∙ lookup-delete id id s.leases
          ∙ rw (==_refl id) refl

  -- A model at its cap can be reserved again once one of its leases is given back, if no more is seen
  -- of it elsewhere.
  pub reserve-release :
      (history : List BrokerCall) (id : String) (a : ModelAssignment) (ext : ℕ)
      → lookup id (calls no_capacity_taken history).leases ≡ some a.model_ref
      → ext ≤ count_at a.model_ref (calls no_capacity_taken history).external
      → (t : Capacity) × (lease : ModelLease F) × (reserve n c
            (release (calls no_capacity_taken history) id)
            a
            ext
          ≡ ok (t, lease))
  unfolding reserve
  reserve-release history id a ext held_one seen =
      let s = calls no_capacity_taken history in
      let (i, w) = calls_kept no_capacity_taken history no_capacity_taken_kept in
      (_, _, raise_if_passed _ broker_error _ (slot_free s id a ext i w held_one seen))
