-- ===== src/Broker/Leases.antt =====
-- Counting the leases of a model, and the freshness of a lease's id.
use Prim.Native.String.{◌++◌ as join}
use text.Mathlib.TextLemmas.{append_assoc}
use aipro.Prelude.{
  ℕ, zero, suc, ◌+◌, ◌<◌, String, Bool, true, false, Option, none, some, List, [], ◌∷◌, ◌==◌,
  string_eq, ==-cases, if◌then◌else◌, is_some, ◌≡◌, refl, sym, ap, ◌∙◌, subst, arith, Bool-cases,
  inl, inr, false≢true, some_inj,
}
use aipro.Prelude.Dict.{Dict, lookup, insert, delete, has, Unique, lookup-delete}
use aipro.Domain.Identity.{decimal}
use aipro.Domain.Decimal.{numbered_inj}
use aipro.Broker.Capacity.{numbered}

-- One, where the test holds.
abbrev pub one_if : Bool → ℕ
one_if true = 1
one_if false = 0

-- How many leases are held for a model.
unfoldable pub held : String → Dict String → ℕ
held r [] = 0
held r ((id, q) ∷ d) = one_if (q == r) + held r d

pub delete_absent : {V : Type 0} (k : String) (d : Dict V) → has k d ≡ false → delete k d ≡ d
unfolding delete lookup
delete_absent k [] h = refl
delete_absent k ((j, v) ∷ d) h = ground (arith, delete_absent k d)

pub delete-insert :
    {V : Type 0} (k : String) (v : V) (d : Dict V) → has k d ≡ false → delete k (insert k v d) ≡ d
unfolding delete insert lookup
delete-insert k v [] h = ground (arith, ==_self k)
  where
    ==_self : (t : String) → (t == t) ≡ true
    ==_self t = aipro.Prelude.==_refl t
delete-insert k v ((j, w) ∷ d) h = ground (arith, delete-insert k v d)

pub delete-Unique : {V : Type 0} (k : String) (d : Dict V) → Unique d → Unique (delete k d)
unfolding delete
delete-Unique k [] u = tt
delete-Unique k ((j, v) ∷ d) (n, u) = elim (Bool-cases (j == k)) [
  | inl e ↦ rw e (delete-Unique k d u)
  | inr e ↦ rw e (rw (lookup-delete k j d) (ground arith), delete-Unique k d u)
]

pub held-insert :
    (r id q : String) (d : Dict String)
    → has id d ≡ false
    → held r (insert id q d) ≡ one_if (q == r) + held r d
unfolding held insert lookup
held-insert r id q [] h = refl
held-insert r id q ((j, w) ∷ d) h = elim (Bool-cases (j == id)) [
  | inl e ↦ absurd (false≢true (sym (rw e at h)))
  | inr e ↦ rw e (rw (held-insert r id q d (rw e at h)) (omega arith))
]

pub held-delete :
    (r id q : String) (d : Dict String)
    → Unique d
    → lookup id d ≡ some q
    → held r d ≡ one_if (q == r) + held r (delete id d)
unfolding held lookup delete
held-delete r id q [] u h = cc
held-delete r id q ((j, w) ∷ d) (n, u) h = elim (==-cases j id) [
  | inl (t, e) ↦ rw t (first (some_inj (rw t at h)) (rw (delete_absent id d (rw e at n)) refl))
  | inr (t, e) ↦
      rw t (ap (λ k. one_if (w == r) + k) (held-delete r id q d u (rw t at h)) ∙ omega arith)
]
  where
    first :
        w ≡ q
        → held r (delete id d) ≡ held r d
        → one_if (w == r) + held r d ≡ one_if (q == r) + held r (delete id d)
    first e f = rw (e, f) refl

-- Every id carries a number below `next`.
abbrev pub NumberedBelow : ℕ → Dict String → Type 0
NumberedBelow next [] = Unit
NumberedBelow next ((id, q) ∷ d) =
    ((x : String) × (k : ℕ) × (k < next) × (id ≡ join x (join ":" (decimal k))))
    × NumberedBelow next d

pub NumberedBelow-suc :
    (next : ℕ) (d : Dict String) → NumberedBelow next d → NumberedBelow (suc next) d
NumberedBelow-suc next [] h = tt
NumberedBelow-suc next ((id, q) ∷ d) ((x, k, b, e), h) =
    ((x, k, omega arith, e), NumberedBelow-suc next d h)

pub NumberedBelow-delete :
    (next : ℕ) (id : String) (d : Dict String)
    → NumberedBelow next d
    → NumberedBelow next (delete id d)
unfolding delete
NumberedBelow-delete next id [] h = tt
NumberedBelow-delete next id ((j, q) ∷ d) (first, h) = elim (Bool-cases (j == id)) [
  | inl e ↦ rw e (NumberedBelow-delete next id d h)
  | inr e ↦ rw e (first, NumberedBelow-delete next id d h)
]

pub NumberedBelow-insert :
    (next : ℕ) (id q : String) (d : Dict String)
    → ((x : String) × (k : ℕ) × (k < next) × (id ≡ join x (join ":" (decimal k))))
    → NumberedBelow next d
    → NumberedBelow next (insert id q d)
unfolding insert
NumberedBelow-insert next id q [] new h = (new, tt)
NumberedBelow-insert next id q ((j, w) ∷ d) new (first, h) = elim (Bool-cases (j == id)) [
  | inl e ↦ rw e (first, h)
  | inr e ↦ rw e (first, NumberedBelow-insert next id q d new h)
]

pub numbered_form :
    (lane ref : String) (seq : ℕ)
    → numbered lane ref seq ≡ join (join lane (join ":" ref)) (join ":" (decimal seq))
numbered_form lane ref seq = sym (
    append_assoc lane (join ":" ref) (join ":" (decimal seq))
    ∙ ap (join lane) (append_assoc ":" ref (join ":" (decimal seq))))

-- The next id is not in use.
pub fresh :
    (lane ref : String) (next : ℕ) (d : Dict String)
    → NumberedBelow next d
    → has (numbered lane ref next) d ≡ false
unfolding lookup
fresh lane ref next [] h = refl
fresh lane ref next ((j, q) ∷ d) ((x, k, b, e), h) = elim (==-cases j (numbered lane ref next)) [
  | inl (t, same) ↦ absurd (
      clash (
        numbered_inj x (join lane (join ":" ref)) k next
          (sym e ∙ same ∙ numbered_form lane ref next)))
  | inr (t, other) ↦ rw t (fresh lane ref next d h)
]
  where
    clash : k ≡ next → ⊥
    clash s = omega arith
