-- ===== src/Queue/Settling.antt =====
-- The earliest comment, and what settling makes of the others.
use aipro.Prelude.{
  ℕ, ◌≤◌, ◌<◌, true, List, [], ◌∷◌, map, In, In-filter, All, not, ◌≡◌, ◌⊎◌, inl, inr, refl, sym,
  ◌∙◌, subst, arith, ◌==◌, nat_eq, string_eq, ltb, if◌then◌else◌, Bool-cases,
}
use aipro.Queue.Arbitration.{Comment, earliest, settle_among, won}

unfoldable pub IsEarliest : Comment → List Comment → Type 0
IsEarliest a cs = In a cs × ((c : Comment) → In c cs → a.id ≤ c.id)

chosen-IsEarliest :
    (best c b a : Comment) (cs : List Comment)
    → (b ≡ c) ⊎ (b ≡ best)
    → b.id ≤ c.id
    → b.id ≤ best.id
    → IsEarliest a (b ∷ cs)
    → IsEarliest a (best ∷ c ∷ cs)
unfolding IsEarliest
chosen-IsEarliest best c b a cs which hc hb (m, least) = (
  elim m [
    | inl e ↦ elim which [ inl q ↦ inr (inl (sym q ∙ e)) | inr q ↦ inl (sym q ∙ e) ]
    | inr k ↦ inr (inr k)
  ],
  λ d n. elim n [
    | inl e ↦ subst (λ y. a.id ≤ y.id) e (least_to best hb)
    | inr k ↦ elim k [
      | inl e ↦ subst (λ y. a.id ≤ y.id) e (least_to c hc)
      | inr z ↦ least d (inr z)
    ]
  ],
)
  where
    least_to : (y : Comment) → b.id ≤ y.id → a.id ≤ y.id
    least_to y h = let low = least b (inl refl) in omega arith

earliest-IsEarliest :
    (best : Comment) (cs : List Comment) → IsEarliest (earliest best cs) (best ∷ cs)
unfolding earliest IsEarliest
earliest-IsEarliest best [] = (
  inl refl,
  λ c m. elim m [ inl e ↦ subst (λ y. best.id ≤ y.id) e (omega arith) | inr n ↦ absurd n ],
)
earliest-IsEarliest best (c ∷ cs) =
    chosen-IsEarliest best c (if ltb c.id best.id then c else best) _ cs (ground arith)
      (ground arith) (ground arith) (earliest-IsEarliest (if ltb c.id best.id then c else best) cs)

In-map_inverse :
    {A B : Type 0} (f : A → B) (b : B) (xs : List A)
    → In b (map f xs)
    → (a : A) × In a xs × (f a ≡ b)
In-map_inverse f b [] m = absurd m
In-map_inverse f b (x ∷ xs) (inl e) = (x, inl refl, e)
In-map_inverse f b (x ∷ xs) (inr m) = let (a, n, e) = In-map_inverse f b xs m in (a, inr n, e)

-- Settling among comments of which `x` is the earliest.
module _ (x : Comment) (bs : List Comment) (first : IsEarliest x bs) (k : ℕ) where
  authoritative_id :
      (c : Comment) (rest : List Comment) → bs ≡ c ∷ rest → (earliest c rest).id ≡ x.id
  unfolding IsEarliest
  authoritative_id c rest e =
      let (m, least) = subst (IsEarliest x) e first in
      let (n, lower) = earliest-IsEarliest c rest in
      let up = least (earliest c rest) n in let down = lower x m in omega arith

  least_of : (c : Comment) → In c bs → x.id ≤ c.id
  unfolding IsEarliest
  least_of = first.1

pub settle_among-doomed :
    (x : Comment) (bs : List Comment) (k d : ℕ)
    → IsEarliest x bs
    → In d (settle_among bs k).0
    → x.id < d
unfolding settle_among
settle_among-doomed x [] k d first m = absurd m
settle_among-doomed x (c ∷ rest) k d first m =
    let same = authoritative_id x (c ∷ rest) first k c rest refl in
    let (y, n, e) = In-map_inverse (λ z. z.id) d _ m in
    let (listed, other) = In-filter (λ z. not (z.id == (earliest c rest).id)) y (c ∷ rest) n in
    let low = least_of x (c ∷ rest) first k y listed in ground (arith, same, other, low, e)

pub settle_among-won :
    (x : Comment) (bs : List Comment) (k j : ℕ) (ks : List ℕ)
    → IsEarliest x bs
    → In j (won k (settle_among bs k).1 ks)
    → (j ≡ x.id) ⊎ In j ks
unfolding settle_among
settle_among-won x [] k j ks first m = inr m
settle_among-won x (c ∷ rest) k j ks first m = elim (Bool-cases (k == (earliest c rest).id)) [
  | inr t ↦ inr (rw t at m)
  | inl t ↦ elim (taken (rw t at m)) [ inl e ↦ inl (sym e ∙ same t) | inr n ↦ inr n ]
]
  where
    taken : (k ≡ j) ⊎ In j ks → (k ≡ j) ⊎ In j ks
    taken y = y

    same : (k == (earliest c rest).id) ≡ true → k ≡ x.id
    same t = let q = authoritative_id x (c ∷ rest) first k c rest refl in ground (arith, t, q)

pub IsEarliest-of :
    (x : Comment) (bs : List Comment)
    → In x bs
    → ((c : Comment) → In c bs → x.id ≤ c.id)
    → IsEarliest x bs
unfolding IsEarliest
IsEarliest-of x bs m least = (m, least)

pub All-of_In :
    (P : Comment → Type 0) (cs : List Comment) → ((c : Comment) → In c cs → P c) → All P cs
All-of_In P [] h = tt
All-of_In P (c ∷ cs) h = (h c (inl refl), All-of_In P cs (λ d m. h d (inr m)))
