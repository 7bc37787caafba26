-- ===== src/Catalog/Refs.antt =====
-- The refs of a catalog are distinct, and a lookup finds the entry of a ref.
use aipro.Prelude.{
  String, false, some, List, [], ◌∷◌, find, find-some, contains, contains_iff, ◌==◌, string_eq,
  ==-cases, eq_iff, ◌≡◌, ◌↔◌, refl, sym, ap, ◌∙◌, subst, In, Distinct, Bool-cases, inl, inr,
  false≢true, ok, err, model_catalog_error, ok_inj,
}
use aipro.Catalog.{ModelCatalogEntry, ModelCatalog, has_duplicate, refs, model_catalog, get}

has_duplicate_iff : (rs : List String) → (has_duplicate rs ≡ false) ↔ Distinct rs
unfolding has_duplicate
has_duplicate_iff [] = (λ h. tt, λ d. refl)
has_duplicate_iff (r ∷ rs) = elim (Bool-cases (contains r rs)) [
  | inl e ↦
      (λ h. absurd (false≢true (sym (rw e at h))), λ (n, d). absurd (n ((contains_iff r rs).0 e)))
  | inr e ↦ (
    λ h. (λ m. false≢true (sym e ∙ (contains_iff r rs).1 m), (has_duplicate_iff rs).0 (rw e at h)),
    λ (n, d). rw e ((has_duplicate_iff rs).1 d),
  )
]

module _ {F : Type 0} where
  In-refs :
      (e : ModelCatalogEntry F) (es : List (ModelCatalogEntry F)) → In e es → In e.ref (refs es)
  unfolding refs
  In-refs e [] m = m
  In-refs e (x ∷ es) (inl q) = inl (ap (λ y. y.ref) q)
  In-refs e (x ∷ es) (inr m) = inr (In-refs e es m)

  find-refs :
      (es : List (ModelCatalogEntry F)) (e : ModelCatalogEntry F)
      → Distinct (refs es)
      → In e es
      → find (λ x. x.ref == e.ref) es ≡ some e
  unfolding refs find
  find-refs [] e d m = absurd m
  find-refs (x ∷ es) e (n, d) m = elim (==-cases x.ref e.ref) [
    | inl (t, q) ↦ elim m [ inl s ↦ rw t (ap some s) | inr k ↦ absurd (n (rw q (In-refs e es k))) ]
    | inr (t, q) ↦ elim m [
      | inl s ↦ absurd (q (ap (λ y. y.ref) s))
      | inr k ↦ rw t (find-refs es e d k)
    ]
  ]

  -- A catalog is made of exactly the lists of entries whose refs are distinct.
  model_catalog_ok_iff :
      (es : List (ModelCatalogEntry F)) (c : ModelCatalog F)
      → (model_catalog es ≡ ok c) ↔ (c ≡ record { entries = es }) × Distinct (refs es)
  unfolding model_catalog
  model_catalog_ok_iff es c = elim (Bool-cases (has_duplicate (refs es))) [
    | inl e ↦ (
      λ h. absurd (refused (rw e at h)),
      λ (q, d). absurd (false≢true (sym ((has_duplicate_iff (refs es)).1 d) ∙ e)),
    )
    | inr e ↦ (
      λ h. (sym (ok_inj (rw e at h)), (has_duplicate_iff (refs es)).0 e),
      λ (q, d). rw e (ap ok (sym q)),
    )
  ]
    where
      refused : ¬ (err model_catalog_error ≡ ok c)
      refused h = cc

  -- In a catalog that was made, a ref finds exactly the entry of the catalog that has it.
  get-In_iff :
      (es : List (ModelCatalogEntry F)) (c : ModelCatalog F) (ref : String)
      (e : ModelCatalogEntry F)
      → model_catalog es ≡ ok c
      → (get c ref ≡ some e) ↔ In e c.entries × (e.ref ≡ ref)
  unfolding get
  get-In_iff es c ref e made = (
    λ h. let (m, t) = find-some (λ x. x.ref == ref) e c.entries h in (m, (eq_iff e.ref ref).0 t),
    λ (m, q).
        subst (λ r. find (λ x. x.ref == r) c.entries ≡ some e) q (find-refs c.entries e distinct m),
  )
    where
      distinct : Distinct (refs c.entries)
      distinct =
          let (q, d) = (model_catalog_ok_iff es c).0 made in
          subst (λ x. Distinct (refs x)) (sym (ap (λ x. x.entries) q)) d
