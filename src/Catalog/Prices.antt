-- ===== src/Catalog/Prices.antt =====
-- What a catalog entry costs at an instant.
use aipro.Prelude.{ℕ, true, some, ◌≡◌, ◌≤◌, arith, is_some, Bool-cases, inl, inr, ok}
use aipro.Numbers.{Number}
use aipro.Catalog.{
  ModelCatalogEntry, costs_nothing, promotion_active, has_known_price, effective_prices,
  list_prices,
}
use aipro.Catalog.Entry.{post_init}

module _ {F : Type 0} (n : Number F) (e : ModelCatalogEntry F) (now : ℕ) where
  -- Prices are determined exactly when the entry says that it knows its price, so "unknown" is never
  -- taken for "free".
  pub effective_prices-has_known_price :
      is_some (effective_prices n.zero e now) ≡ has_known_price e now
  unfolding effective_prices has_known_price
  effective_prices-has_known_price = ground arith

  -- A promotion that is accepted by the checks ends at its end: from then on the entry costs its list
  -- prices, and its price is unknown if one of them is not declared.
  promotion_lapses :
      (t : ℕ)
      → post_init n e ≡ ok e
      → e.promotional ≡ true
      → e.promo_ends_at ≡ some t
      → t ≤ now
      → effective_prices n.zero e now ≡ list_prices e.input_price_per_mtok e.output_price_per_mtok
  unfolding effective_prices promotion_active post_init
  promotion_lapses t accepted p ends late = elim (Bool-cases (costs_nothing e)) [
    | inl c ↦ absurd (ground (arith, accepted, p, c))
    | inr c ↦ ground (arith, c, ends, late)
  ]
