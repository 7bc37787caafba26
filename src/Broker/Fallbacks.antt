-- ===== src/Broker/Fallbacks.antt =====
-- The fallback chain is bounded, leaves out the chosen model and changes the provider at each step.
use aipro.Prelude.{
  ℕ, suc, ◌-◌, ◌≤◌, String, Bool, true, false, some, List, [], ◌∷◌, length, map, ◌&&◌, string_eq,
  ==-cases, contains, contains_iff, leb, ◌≡◌, refl, sym, ap, ◌∙◌, subst, arith, Bool-cases, inl,
  inr, In, All, All-In, Distinct, false≢true, All-mono, In-map_inv,
}
use aipro.Catalog.{ModelCatalog}
use aipro.Broker.Windows.{BrokerConfig}
use aipro.Broker.Select.{Ranked, provider_of, chain_from, fallback_chain}

module _ {F : Type 0} (c : ModelCatalog F) where
  -- A ref of the ranking other than the chosen one.
  abbrev Alternate : List (Ranked F) → String → String → Type 0
  Alternate ranked chosen r = ¬ (r ≡ chosen) × ((x : Ranked F) × In x ranked × (x.ref ≡ r))

  Alternate-later :
      (x : Ranked F) (xs : List (Ranked F)) (chosen : String) (rs : List String)
      → All (Alternate xs chosen) rs
      → All (Alternate (x ∷ xs) chosen) rs
  Alternate-later x xs chosen [] a = tt
  Alternate-later x xs chosen (r ∷ rs) ((other, (y, m, e)), a) =
      ((other, (y, inr m, e)), Alternate-later x xs chosen rs a)

  -- None of the providers was seen, and each stands once.
  abbrev NewProviders : List String → List String → Type 0
  NewProviders seen rs =
      All (λ r. ¬ In (provider_of c r) seen) rs × Distinct (map (provider_of c) rs)

  new_later :
      (p : String) (seen rs : List String) (r : String)
      → provider_of c r ≡ p
      → ¬ In p seen
      → NewProviders (p ∷ seen) rs
      → NewProviders seen (r ∷ rs)
  new_later p seen rs r e unseen (fresh, distinct) = (
    (
      λ m. unseen (subst (λ q. In q seen) e m),
      All-mono (λ q. ¬ In (provider_of c q) (p ∷ seen)) (λ q. ¬ In (provider_of c q) seen) rs
          (λ q h m. h (inr m)) fresh,
    ),
    (
      λ m.
          let (q, k, same) = In-map_inv (provider_of c) (provider_of c r) rs m in
          All-In (λ x. ¬ In (provider_of c x) (p ∷ seen)) q rs fresh k (inl (sym (same ∙ e))),
      distinct,
    ),
  )

  module _ (most : ℕ) (distinct : Bool) (chosen : String) where
    -- What a step of the loop does.
    pub chain-cases :
        (P : List String → Type 0) (x : Ranked F) (xs : List (Ranked F)) (seen : List String)
        (size : ℕ)
        → P (chain_from c most distinct chosen seen size xs)
        → (¬ (x.ref ≡ chosen)
            → leb most size ≡ false
            → (distinct && contains (provider_of c x.ref) seen) ≡ false
            → P (
                x.ref
                ∷ chain_from c most distinct chosen (provider_of c x.ref ∷ seen) (suc size) xs))
        → P (chain_from c most distinct chosen seen size (x ∷ xs))
    unfolding chain_from
    chain-cases P x xs seen size skipped taken = elim (==-cases x.ref chosen) [
      | inl (t, e) ↦ rw t skipped
      | inr (t, e) ↦ rw t (elim (Bool-cases (leb most size)) [
        | inl full ↦ rw full skipped
        | inr room ↦ rw room (elim (Bool-cases (distinct && contains (provider_of c x.ref) seen)) [
          | inl old ↦ rw old skipped
          | inr new ↦ rw new (taken e room new)
        ])
      ])
    ]

    chain-length :
        (seen : List String) (size : ℕ) (xs : List (Ranked F))
        → length (chain_from c most distinct chosen seen size xs) ≤ most - size
    unfolding chain_from
    chain-length seen size [] = omega arith
    chain-length seen size (x ∷ xs) =
        chain-cases (λ rs. length rs ≤ most - size) x xs seen size (chain-length seen size xs)
          (λ other room new.
            let h = chain-length (provider_of c x.ref ∷ seen) (suc size) xs in room_left room h)
      where
        room_left : {k : ℕ} → leb most size ≡ false → k ≤ most - suc size → suc k ≤ most - size
        room_left r h = ground arith

    chain-Alternate :
        (seen : List String) (size : ℕ) (xs : List (Ranked F))
        → All (Alternate xs chosen) (chain_from c most distinct chosen seen size xs)
    unfolding chain_from
    chain-Alternate seen size [] = tt
    chain-Alternate seen size (x ∷ xs) =
        chain-cases (λ rs. All (Alternate (x ∷ xs) chosen) rs) x xs seen size
          (Alternate-later x xs chosen _ (chain-Alternate seen size xs))
          (λ other room new. (
            (other, (x, inl refl, refl)),
            Alternate-later x xs chosen _
                (chain-Alternate (provider_of c x.ref ∷ seen) (suc size) xs),
          ))

    chain-NewProviders :
        distinct ≡ true
        → (seen : List String) (size : ℕ) (xs : List (Ranked F))
        → NewProviders seen (chain_from c most distinct chosen seen size xs)
    unfolding chain_from
    chain-NewProviders d seen size [] = (tt, tt)
    chain-NewProviders d seen size (x ∷ xs) =
        chain-cases (NewProviders seen) x xs seen size (chain-NewProviders d seen size xs)
          (λ other room new.
            new_later (provider_of c x.ref) seen _ x.ref refl (unseen new)
              (chain-NewProviders d (provider_of c x.ref ∷ seen) (suc size) xs))
      where
        unseen :
            (distinct && contains (provider_of c x.ref) seen) ≡ false
            → ¬ In (provider_of c x.ref) seen
        unseen new m = false≢true (
            sym new
            ∙ ap (λ b. b && contains (provider_of c x.ref) seen) d
            ∙ (contains_iff (provider_of c x.ref) seen).1 m)

module _ {F : Type 0} (c : ModelCatalog F) (config : BrokerConfig F) (ranked : List (Ranked F))
    (chosen : String) where
  -- A chain has at most as many links as the configuration allows, and each is another ranked model.
  pub fallback_chain-length :
      (length (fallback_chain c config ranked (some chosen)) ≤ config.max_fallbacks)
      × All
          (λ r. ¬ (r ≡ chosen) × ((x : Ranked F) × In x ranked × (x.ref ≡ r)))
          (fallback_chain c config ranked (some chosen))
  unfolding fallback_chain
  fallback_chain-length = (
    (let h =
          chain-length c config.max_fallbacks config.require_distinct_fallback_provider chosen
            (provider_of c chosen ∷ []) 0 ranked in
        omega arith),
    chain-Alternate c config.max_fallbacks config.require_distinct_fallback_provider chosen
        (provider_of c chosen ∷ []) 0 ranked,
  )

  -- Where the configuration asks for distinct providers, the chosen model and the links of the chain
  -- all have different ones.
  pub fallback_chain-Distinct :
      config.require_distinct_fallback_provider ≡ true
      → Distinct (map (provider_of c) (chosen ∷ fallback_chain c config ranked (some chosen)))
  unfolding fallback_chain
  fallback_chain-Distinct d =
      let (fresh, distinct) =
        chain-NewProviders c config.max_fallbacks config.require_distinct_fallback_provider chosen d
          (provider_of c chosen ∷ []) 0 ranked in
      (
        λ m.
            let (r, k, e) = In-map_inv (provider_of c) (provider_of c chosen) _ m in
            All-In (λ q. ¬ In (provider_of c q) (provider_of c chosen ∷ [])) r _ fresh k
              (inl (sym e)),
        distinct,
      )
