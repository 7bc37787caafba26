-- ===== src/CiGate/Sets.antt =====
-- `sorted(set(names))` and `dict.fromkeys(names)` hold exactly the names.
use Prim.Native.String.{compare}
use Prim.Native.Nat.{Ordering}
use text.Mathlib.TextEquality.{path_by_compare}
use aipro.Prelude.{
  String, false, List, [], ◌∷◌, ◌≡◌, ◌↔◌, ◌⊎◌, refl, sym, inl, inr, In, is_empty, string_eq, ◌∙◌,
}
use aipro.CiGate.{add_sorted, sorted_set}

Ordering-cases : (o : Ordering) → (o ≡ Ordering.lt) ⊎ (o ≡ Ordering.eq) ⊎ (o ≡ Ordering.gt)
Ordering-cases Ordering.lt = inl refl
Ordering-cases Ordering.eq = inr (inl refl)
Ordering-cases Ordering.gt = inr (inr refl)

In-add_sorted : (a n : String) (ms : List String) → In a (add_sorted n ms) ↔ ((n ≡ a) ⊎ In a ms)
unfolding add_sorted
In-add_sorted a n [] = (λ m. m, λ m. m)
In-add_sorted a n (m ∷ ms) =
    let (to, from) = In-add_sorted a n ms in
    elim (Ordering-cases (compare n m)) [
      | inl e ↦ rw (e, add_sorted) (λ x. x, λ x. x)
      | inr (inl e) ↦
          let same : n ≡ m = path_by_compare n m e in
          rw (e, add_sorted) (λ x. inr x, λ x. elim x [ inl q ↦ inl (sym same ∙ q) | inr y ↦ y ])
      | inr (inr e) ↦
          rw (e, add_sorted)
            (
              λ x. elim x [
                | inl q ↦ inr (inl q)
                | inr y ↦ elim (to y) [ inl q ↦ inl q | inr z ↦ inr (inr z) ]
              ],
              λ x. elim x [
                | inl q ↦ inr (from (inl q))
                | inr y ↦ elim y [ inl q ↦ inl q | inr z ↦ inr (from (inr z)) ]
              ],
            )
    ]

pub In-sorted_set : (a : String) (ns : List String) → In a (sorted_set ns) ↔ In a ns
unfolding sorted_set
In-sorted_set a [] = (λ m. m, λ m. m)
In-sorted_set a (n ∷ ns) =
    let (to, from) = In-add_sorted a n (sorted_set ns) in
    let (down, up) = In-sorted_set a ns in
    (
      λ m. elim (to m) [ inl e ↦ inl e | inr k ↦ inr (down k) ],
      λ m. elim m [ inl e ↦ from (inl e) | inr k ↦ from (inr (up k)) ],
    )

is_empty-add_sorted : (n : String) (ms : List String) → is_empty (add_sorted n ms) ≡ false
unfolding add_sorted
is_empty-add_sorted n [] = refl
is_empty-add_sorted n (m ∷ ms) = elim (Ordering-cases (compare n m)) [
  | inl e ↦ rw (e, add_sorted)
  | inr (inl e) ↦ rw (e, add_sorted)
  | inr (inr e) ↦ rw (e, add_sorted)
]

pub is_empty-sorted_set : (ns : List String) → is_empty (sorted_set ns) ≡ is_empty ns
unfolding sorted_set
is_empty-sorted_set [] = refl
is_empty-sorted_set (n ∷ ns) = is_empty-add_sorted n (sorted_set ns)
