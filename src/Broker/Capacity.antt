-- ===== src/Broker/Capacity.antt =====
-- src/ai_pr_orchestrator/v3/broker.py: `PolicyBroker.reserve` and `PolicyBroker.release`. The lock
-- makes each of them one step; `external_in_flight` is a natural number by its type.
use Prim.Native.String.{◌++◌ as join}
use aipro.Prelude.{
  ℕ, suc, ◌+◌, ◌-◌, String, Bool, false, Option, none, some, [], ltb, leb, ◌==◌, nat_eq,
  if◌then◌else◌, Result, ok, broker_error, ◌>>◌, raise_if,
}
use aipro.Prelude.Dict.{Dict, lookup, insert, delete}
use aipro.Numbers.{Number}
use aipro.Domain.Identity.{decimal}
use aipro.Catalog.{ModelCatalogEntry, ModelCatalog, get, costs_nothing}
use aipro.Broker.{ModelAssignment, ModelLease}

-- The fields of the broker that its calls change.
pub record Capacity : Type 0 where
  pub outstanding : Dict ℕ
  pub leases : Dict String
  pub next_lease_seq : ℕ
  pub external : Dict ℕ

abbrev pub no_capacity_taken : Capacity
no_capacity_taken = record { outstanding = []; leases = []; next_lease_seq = 0; external = [] }

abbrev pub or_zero : Option ℕ → ℕ
or_zero none = 0
or_zero (some n) = n

-- `d.get(k, 0)`
abbrev pub count_at : String → Dict ℕ → ℕ
count_at k d = or_zero (lookup k d)

abbrev pub greater : ℕ → ℕ → ℕ
greater a b = if ltb a b then b else a

abbrev pub numbered : String → String → ℕ → String
numbered lane ref seq = join lane (join ":" (join ref (join ":" (decimal seq))))

-- `cap is not None and total >= cap`
abbrev pub full : Option ℕ → ℕ → Bool
full none total = false
full (some cap) total = leb cap total

unfoldable pub take_slot : Capacity → ModelAssignment → ℕ → Capacity
take_slot s a external = record {
  outstanding = insert a.model_ref (suc (count_at a.model_ref s.outstanding)) s.outstanding;
  leases = insert (numbered a.lane a.model_ref s.next_lease_seq) a.model_ref s.leases;
  next_lease_seq = suc s.next_lease_seq;
  external = insert a.model_ref external s.external;
}

-- `if current > 0: self._outstanding[ref] = current - 1`
abbrev pub one_less : String → Dict ℕ → Dict ℕ
one_less ref d = if ltb 0 (count_at ref d) then insert ref (count_at ref d - 1) d else d

abbrev pub give_slot : Capacity → String → Option String → Capacity
give_slot s lease_id none = s
give_slot s lease_id (some ref) = record {
  outstanding = one_less ref s.outstanding;
  leases = delete lease_id s.leases;
  next_lease_seq = s.next_lease_seq;
  external =
      if count_at ref (one_less ref s.outstanding) == 0 then delete ref s.external else s.external;
}

unfoldable pub release : Capacity → String → Capacity
release s lease_id = give_slot s lease_id (lookup lease_id s.leases)

module _ {F : Type 0} (n : Number F) (c : ModelCatalog F) where
  abbrev pub cap_of_entry : Option (ModelCatalogEntry F) → Option ℕ
  cap_of_entry none = none
  cap_of_entry (some e) = e.max_concurrency

  unfoldable pub cap_of : String → Option ℕ
  cap_of ref = cap_of_entry (get c ref)

  -- `0.0 if permanent_free else None`
  abbrev pub charge_of : Option (ModelCatalogEntry F) → Option F
  charge_of none = none
  charge_of (some e) = if costs_nothing e then some n.zero else none

  unfoldable pub reserve : Capacity → ModelAssignment → ℕ → Result (Capacity × ModelLease F)
  reserve s a external_in_flight =
      let external = greater (count_at a.model_ref s.external) external_in_flight in
      do
        raise_if (full (cap_of a.model_ref) (count_at a.model_ref s.outstanding + external))
            broker_error
        ok (
          take_slot s a external,
          record {
            lease_id = numbered a.lane a.model_ref s.next_lease_seq;
            assignment = a;
            max_charge_usd = charge_of (get c a.model_ref);
          },
        )
