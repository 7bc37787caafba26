-- ===== src/Lanes/Uniqueness.antt =====
-- The registry's two uniqueness invariants, and what a lookup returns.
use mathlib.Core.List.{append-nil, append_assoc}
use aipro.Prelude.{
  String, true, false, some, List, [], ◌∷◌, ◌++◌, map, ◌≡◌, ◌↔◌, refl, sym, ap, ◌∙◌, arith, ok,
  ◌==◌, string_eq, All, In, In-map, Distinct, some_inj, >>=-eq-ok, Bool-cases, inl, inr, ==-cases,
  ◌||◌,
}
use aipro.Prelude.Dict.{Dict, lookup, has, insert, has-insert, insert_new}
use aipro.Lanes.{LaneIdentity, LaneRegistry, add_lanes, registry, get}

abbrev pub lane_names : List LaneIdentity → List String
lane_names ls = map (λ l. l.lane) ls

abbrev pub profiles : List LaneIdentity → List String
profiles ls = map (λ l. l.profile_template) ls

abbrev pub entries : List LaneIdentity → Dict LaneIdentity
entries [] = []
entries (l ∷ ls) = (l.lane, l) ∷ entries ls

-- No text of the list is a key.
abbrev Absent {ℓ} : {V : Type ℓ} → Dict V → List String → Type 0
Absent d ks = All (λ k. has k d ≡ false) ks

module _ {V : Type 0} (k : String) (v : V) (d : Dict V) where
  Absent-insert : (ks : List String) → ¬ In k ks → Absent d ks → Absent (insert k v d) ks
  Absent-insert [] n a = tt
  Absent-insert (j ∷ ks) n a = (
    rw has-insert
        (elim (==-cases k j) [ inl (t, e) ↦ absurd (n (inl (sym e))) | inr (t, e) ↦ rw t a.0 ]),
    Absent-insert ks (λ m. n (inr m)) a.1,
  )

  Absent-of_insert : (ks : List String) → Absent (insert k v d) ks → ¬ In k ks × Absent d ks
  Absent-of_insert [] a = (λ m. m, tt)
  Absent-of_insert (j ∷ ks) (h, a) =
      let (n, rest) = Absent-of_insert ks a in
      elim (==-cases k j) [
        | inl (t, e) ↦ absurd (conflict t)
        | inr (t, e) ↦ (λ m. elim m [ inl q ↦ e (sym q) | inr q ↦ n q ], (clean t, rest))
      ]
    where
      h' : (k == j || has j d) ≡ false
      h' = rw has-insert at h

      conflict : (k == j) ≡ true → ⊥
      conflict t = ground (arith, h')

      clean : (k == j) ≡ false → has j d ≡ false
      clean t = ground (arith, h')

add_lanes_sound :
    (bn : Dict LaneIdentity) (bp : Dict String) (ls : List LaneIdentity) (d : Dict LaneIdentity)
    → add_lanes bn bp ls ≡ ok d
    → (d ≡ bn ++ entries ls)
      × (Absent bn (lane_names ls) × Distinct (lane_names ls))
      × (Absent bp (profiles ls) × Distinct (profiles ls))
unfolding add_lanes
add_lanes_sound bn bp [] d h = (rw append-nil (ground arith), (tt, tt), (tt, tt))
add_lanes_sound bn bp (l ∷ ls) d h = elim (Bool-cases (has l.lane bn)) [
  | inl t ↦ absurd (ground (arith, t))
  | inr t ↦ elim (Bool-cases (has l.profile_template bp)) [
    | inl u ↦ absurd (ground (arith, t, u))
    | inr u ↦
        let (e, (an, dn), (ab, dp)) =
          add_lanes_sound (insert l.lane l bn) (insert l.profile_template l.lane bp) ls d
            (rw (t, u) at h) in
        let (nn, an') = Absent-of_insert l.lane l bn (lane_names ls) an in
        let (np, ab') = Absent-of_insert l.profile_template l.lane bp (profiles ls) ab in
        (
          e ∙ rw (insert_new l.lane l bn t) (append_assoc bn ((l.lane, l) ∷ []) (entries ls)),
          ((t, an'), (nn, dn)),
          ((u, ab'), (np, dp)),
        )
  ]
]

add_lanes_complete :
    (bn : Dict LaneIdentity) (bp : Dict String) (ls : List LaneIdentity)
    → Absent bn (lane_names ls)
    → Distinct (lane_names ls)
    → Absent bp (profiles ls)
    → Distinct (profiles ls)
    → add_lanes bn bp ls ≡ ok (bn ++ entries ls)
unfolding add_lanes
add_lanes_complete bn bp [] an dn ab dp = rw append-nil
add_lanes_complete bn bp (l ∷ ls) (t, an) (nn, dn) (u, ab) (np, dp) =
    rw (t, u)
      (add_lanes_complete (insert l.lane l bn) (insert l.profile_template l.lane bp) ls
          (Absent-insert l.lane l bn _ nn an) dn
          (Absent-insert l.profile_template l.lane bp _ np ab) dp
        ∙ rw (insert_new l.lane l bn t) (ok_path (append_assoc bn ((l.lane, l) ∷ []) (entries ls))))
  where
    ok_path : {d e : Dict LaneIdentity} → d ≡ e → ok d ≡ ok e
    ok_path q = ap ok q

Absent-nil : (V : Type 0) (ks : List String) → Absent {V = V} [] ks
unfolding lookup
Absent-nil V [] = tt
Absent-nil V (k ∷ ks) = (refl, Absent-nil V ks)

-- Exactly the lists in which no lane name and no profile template stands twice make a registry, and
-- the registry lists their lanes in order under their names.
pub registry_ok_iff :
    (ls : List LaneIdentity) (r : LaneRegistry)
    → (registry ls ≡ ok r)
      ↔ (r ≡ record { lanes = entries ls }) × Distinct (lane_names ls) × Distinct (profiles ls)
unfolding registry
registry_ok_iff ls r = (
  λ h.
      let (d, built, made) = >>=-eq-ok (add_lanes [] [] ls) (λ d. ok (record { lanes = d })) h in
      let (e, (an, dn), (ab, dp)) = add_lanes_sound [] [] ls d built in (cc (made, e), dn, dp),
  λ (e, dn, dp). rw (add_lanes_complete [] [] ls (Absent-nil _ _) dn (Absent-nil _ _) dp, e) refl,
)

-- Among the entries of lanes with distinct names, a name finds exactly the lane of that name in the list.
lookup-entries :
    (ls : List LaneIdentity) (n : String) (l : LaneIdentity)
    → Distinct (lane_names ls)
    → (lookup n (entries ls) ≡ some l) ↔ In l ls × (l.lane ≡ n)
unfolding lookup
lookup-entries [] n l d = (λ h. cc, λ m. absurd m.0)
lookup-entries (x ∷ ls) n l (fresh, d) = elim (==-cases x.lane n) [
  | inl (t, e) ↦ (
    λ h. let same : x ≡ l = some_inj (rw t at h) in (inl same, ap (λ y. y.lane) (sym same) ∙ e),
    λ (m, q). elim m [
      | inl s ↦ rw t (ap some s)
      | inr s ↦ absurd (fresh (rw (e ∙ sym q) (In-map (λ y. y.lane) l ls s)))
    ],
  )
  | inr (t, e) ↦ (
    λ h. let (m, q) = (lookup-entries ls n l d).0 (rw t at h) in (inr m, q),
    λ (m, q). elim m [
      | inl s ↦ absurd (e (ap (λ y. y.lane) s ∙ q))
      | inr s ↦ rw t ((lookup-entries ls n l d).1 (s, q))
    ],
  )
]

-- A lookup in a registry that was made returns the lane of that name in the list it was made from,
-- and raises exactly when the list has none.
pub get_iff :
    (ls : List LaneIdentity) (r : LaneRegistry) (n : String) (l : LaneIdentity)
    → registry ls ≡ ok r
    → (get r n ≡ ok l) ↔ In l ls × (l.lane ≡ n)
unfolding get
get_iff ls r n l made =
    let (e, dn, dp) = (registry_ok_iff ls r).0 made in
    let (to, from) = lookup-entries ls n l dn in
    (λ h. to (ground (arith, e, h)), λ m. ground (arith, e, from m))
