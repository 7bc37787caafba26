-- ===== src/Prelude/Lists.antt =====
-- List functions with Boolean tests, and predicates on lists by recursion.
use Prim.Native.Nat.{ℕ, suc, ◌≤◌}
use mathlib.Core.Path.{◌≡◌, refl, subst, ap}
use mathlib.Core.Logic.{◌⊎◌, inl, inr, ◌↔◌}
use mathlib.Core.Bool.{Bool, true, false, ◌&&◌, ◌||◌}
use mathlib.Core.Option.{Option, none, some}
use mathlib.Core.List.{List, [], ◌∷◌, ◌++◌, map}
use native.Mathlib.Omega.{arith}
use aipro.Prelude.Tests.{if◌then◌else◌, Bool-cases}
use aipro.Prelude.Equality.{Eq, ◌==◌, ==-cases}

module _ {ℓ} {A : Type ℓ} where
  abbrev pub length : List A → ℕ
  length [] = 0
  length (x ∷ xs) = suc (length xs)

  -- `[x for x in xs if p(x)]`
  unfoldable pub filter : (A → Bool) → List A → List A
  filter p [] = []
  filter p (x ∷ xs) = let rest = filter p xs in if p x then x ∷ rest else rest

  -- `any(p(x) for x in xs)`
  unfoldable pub any : (A → Bool) → List A → Bool
  any p [] = false
  any p (x ∷ xs) = p x || any p xs

  -- `all(p(x) for x in xs)`
  unfoldable pub all : (A → Bool) → List A → Bool
  all p [] = true
  all p (x ∷ xs) = p x && all p xs

  -- `next((x for x in xs if p(x)), None)`
  unfoldable pub find : (A → Bool) → List A → Option A
  find p [] = none
  find p (x ∷ xs) = if p x then some x else find p xs

  abbrev pub head? : List A → Option A
  head? [] = none
  head? (x ∷ xs) = some x

  abbrev pub is_empty : List A → Bool
  is_empty [] = true
  is_empty (x ∷ xs) = false

module _ {A : Type 0} where
  -- Every element has the property.
  abbrev pub All : (A → Type 0) → List A → Type 0
  All P [] = Unit
  All P (x ∷ xs) = P x × All P xs

  -- The element stands in the list.
  abbrev pub In : A → List A → Type 0
  In a [] = ⊥
  In a (x ∷ xs) = (x ≡ a) ⊎ In a xs

  pub All-append :
      (Q : A → Type 0) (front back : List A) → All Q front → All Q back → All Q (front ++ back)
  All-append Q [] back none_first rest = rest
  All-append Q (a ∷ front) back (first, others) rest = (first, All-append Q front back others rest)

  pub In-append_left : (a : A) (xs ys : List A) → In a xs → In a (xs ++ ys)
  In-append_left a [] ys h = absurd h
  In-append_left a (x ∷ xs) ys (inl e) = inl e
  In-append_left a (x ∷ xs) ys (inr h) = inr (In-append_left a xs ys h)

  pub In-append_right : (a : A) (xs ys : List A) → In a ys → In a (xs ++ ys)
  In-append_right a [] ys h = h
  In-append_right a (x ∷ xs) ys h = inr (In-append_right a xs ys h)

  pub In-append : (a : A) (xs ys : List A) → In a (xs ++ ys) → In a xs ⊎ In a ys
  In-append a [] ys h = inr h
  In-append a (x ∷ xs) ys (inl e) = inl (inl e)
  In-append a (x ∷ xs) ys (inr h) = elim (In-append a xs ys h) [
    | inl l ↦ inl (inr l)
    | inr r ↦ inr r
  ]

  pub All-In : (P : A → Type 0) (a : A) (xs : List A) → All P xs → In a xs → P a
  All-In P a [] h m = absurd m
  All-In P a (x ∷ xs) h (inl e) = subst P e h.0
  All-In P a (x ∷ xs) h (inr m) = All-In P a xs h.1 m

module _ {A : Type 0} (p : A → Bool) where
  pub filter-All : (xs : List A) → All (λ x. p x ≡ true) (filter p xs)
  unfolding filter
  filter-All [] = tt
  filter-All (x ∷ xs) = ground (arith, filter-All xs)

  pub In-filter : (a : A) (xs : List A) → In a (filter p xs) → In a xs × (p a ≡ true)
  unfolding filter
  In-filter a [] h = absurd h
  In-filter a (x ∷ xs) h = elim (Bool-cases (p x)) [
    | inl e ↦ elim (shown e) [
      | inl q ↦ (inl q, rw (← q) e)
      | inr m ↦ let (i, t) = In-filter a xs m in (inr i, t)
    ]
    | inr e ↦ let (i, t) = In-filter a xs (hidden e) in (inr i, t)
  ]
    where
      shown : p x ≡ true → (x ≡ a) ⊎ In a (filter p xs)
      shown e = rw e at h

      hidden : p x ≡ false → In a (filter p xs)
      hidden e = rw e at h

  pub filter-append : (xs ys : List A) → filter p (xs ++ ys) ≡ filter p xs ++ filter p ys
  unfolding filter
  filter-append [] ys = refl
  filter-append (x ∷ xs) ys = ground (arith, filter-append xs ys)

  pub In-filter_intro : (a : A) (xs : List A) → In a xs → p a ≡ true → In a (filter p xs)
  unfolding filter
  In-filter_intro a [] m e = absurd m
  In-filter_intro a (x ∷ xs) (inl q) e = rw (ap_eq q e) (inl q)
    where
      ap_eq : x ≡ a → p a ≡ true → p x ≡ true
      ap_eq r t = rw r t
  In-filter_intro a (x ∷ xs) (inr m) e = elim (Bool-cases (p x)) [
    | inl t ↦ rw t (inr (In-filter_intro a xs m e))
    | inr t ↦ rw t (In-filter_intro a xs m e)
  ]

  pub any_witness : (xs : List A) → any p xs ≡ true → (a : A) × In a xs × (p a ≡ true)
  unfolding any
  any_witness [] h = absurd (false≢true h)
    where
      false≢true : ¬ (false ≡ true)
      false≢true e = cc
  any_witness (x ∷ xs) h = elim (Bool-cases (p x)) [
    | inl e ↦ (x, inl refl, e)
    | inr e ↦ let (a, m, t) = any_witness xs (rw e at h) in (a, inr m, t)
  ]

  pub any_intro : (a : A) (xs : List A) → In a xs → p a ≡ true → any p xs ≡ true
  unfolding any
  any_intro a [] m e = absurd m
  any_intro a (x ∷ xs) (inl q) e = rw (ap_eq q e)
    where
      ap_eq : x ≡ a → p a ≡ true → p x ≡ true
      ap_eq r t = rw r t
  any_intro a (x ∷ xs) (inr m) e = ground (arith, any_intro a xs m e)

  pub any-false : (xs : List A) → any p xs ≡ false → All (λ x. p x ≡ false) xs
  unfolding any
  any-false [] h = tt
  any-false (x ∷ xs) h = ground (arith, any-false xs)

  pub all-true : (xs : List A) → all p xs ≡ true → All (λ x. p x ≡ true) xs
  unfolding all
  all-true [] h = tt
  all-true (x ∷ xs) h = ground (arith, all-true xs)

  pub all-In : (a : A) (xs : List A) → all p xs ≡ true → In a xs → p a ≡ true
  all-In a xs h = All-In (λ x. p x ≡ true) a xs (all-true xs h)

  pub all_intro : (xs : List A) → All (λ x. p x ≡ true) xs → all p xs ≡ true
  unfolding all
  all_intro [] h = refl
  all_intro (x ∷ xs) h = ground (arith, all_intro xs h.1)

  pub find-some : (a : A) (xs : List A) → find p xs ≡ some a → In a xs × (p a ≡ true)
  unfolding find
  find-some a [] h = absurd (none_some h)
    where
      none_some : {b : A} → ¬ (none ≡ some b)
      none_some e = cc
  find-some a (x ∷ xs) h = elim (Bool-cases (p x)) [
    | inl e ↦ let q : x ≡ a = same (rw e at h) in (inl q, rw (← q) e)
    | inr e ↦ let (m, t) = find-some a xs (rw e at h) in (inr m, t)
  ]
    where
      same : {b : A} → some x ≡ some b → x ≡ b
      same s = cc

module _ {A : Type 0} ⦃e : Eq A⦄ where
  -- `a in xs`
  unfoldable pub contains : A → List A → Bool
  contains a [] = false
  contains a (x ∷ xs) = x == a || contains a xs

  pub contains_iff : (a : A) (xs : List A) → (contains a xs ≡ true) ↔ In a xs
  unfolding contains
  contains_iff a [] = (λ h. cc, λ m. absurd m)
  contains_iff a (x ∷ xs) = elim (==-cases x a) [
    | inl (p, q) ↦ (λ _. inl q, λ _. rw p refl)
    | inr (p, q) ↦ (
      λ h. inr ((contains_iff a xs).0 (rw p at h)),
      λ m. elim m [ inl s ↦ absurd (q s) | inr s ↦ rw p ((contains_iff a xs).1 s) ],
    )
  ]

module _ {A : Type 0} where
  -- No element stands twice.
  abbrev pub Distinct : List A → Type 0
  Distinct [] = Unit
  Distinct (x ∷ xs) = ¬ In x xs × Distinct xs

pub In-map : {A B : Type 0} (f : A → B) (a : A) (xs : List A) → In a xs → In (f a) (map f xs)
In-map f a [] m = m
In-map f a (x ∷ xs) (inl e) = inl (ap f e)
In-map f a (x ∷ xs) (inr m) = inr (In-map f a xs m)

pub length-filter-le : {A : Type 0} (p : A → Bool) (xs : List A) → length (filter p xs) ≤ length xs
unfolding filter
length-filter-le p [] = omega arith
length-filter-le p (x ∷ xs) = ground (arith, length-filter-le p xs)

pub In-map_inv :
    {A B : Type 0} (f : A → B) (b : B) (xs : List A)
    → In b (map f xs)
    → (a : A) × In a xs × (f a ≡ b)
In-map_inv f b [] m = absurd m
In-map_inv f b (x ∷ xs) (inl e) = (x, inl refl, e)
In-map_inv f b (x ∷ xs) (inr m) = let (a, k, e) = In-map_inv f b xs m in (a, inr k, e)

pub All-mono :
    {A : Type 0} (P Q : A → Type 0) (xs : List A) → ((x : A) → P x → Q x) → All P xs → All Q xs
All-mono P Q [] h a = tt
All-mono P Q (x ∷ xs) h (p, a) = (h x p, All-mono P Q xs h a)

pub filter-nil :
    {A : Type 0} (p : A → Bool) (xs : List A) → filter p xs ≡ [] → All (λ x. p x ≡ false) xs
unfolding filter
filter-nil p [] h = tt
filter-nil p (x ∷ xs) h = elim (Bool-cases (p x)) [
  | inl t ↦ absurd (cons_nil (rw t at h))
  | inr t ↦ (t, filter-nil p xs (rw t at h))
]
  where
    cons_nil : {A : Type 0} {a : A} {ys : List A} → ¬ (a ∷ ys ≡ [])
    cons_nil e = cc
