-- ===== src/Prelude/Dict.antt =====
-- Python's `dict` with text keys: entries in insertion order, an update keeps its place.
use Prim.Native.String.{String}
use mathlib.Core.Path.{◌≡◌, refl, ◌∙◌}
use mathlib.Core.Logic.{inl, inr}
use mathlib.Core.Bool.{Bool, false, ◌||◌}
use mathlib.Core.Option.{Option, none, some}
use mathlib.Core.List.{List, [], ◌∷◌, ◌++◌}
use native.Mathlib.Omega.{arith}
use text.Mathlib.TextEquality.{eq_iff}
use aipro.Prelude.Tests.{if◌then◌else◌, is_some, Bool-cases}
use aipro.Prelude.Equality.{◌==◌, string_eq, ==-cases}
use aipro.Prelude.Lists.{contains}

abbrev pub Dict {ℓ} : Type ℓ → Type ℓ
Dict V = List (String × V)

module _ {ℓ} {V : Type ℓ} where
  -- `d.get(k)`
  unfoldable pub lookup : String → Dict V → Option V
  lookup k [] = none
  lookup k ((j, v) ∷ d) = if j == k then some v else lookup k d

  -- `k in d`
  abbrev pub has : String → Dict V → Bool
  has k d = is_some (lookup k d)

  -- `d[k] = v`
  unfoldable pub insert : String → V → Dict V → Dict V
  insert k v [] = (k, v) ∷ []
  insert k v ((j, w) ∷ d) = if j == k then (j, v) ∷ d else (j, w) ∷ insert k v d

  -- `d.pop(k, None)`; a key stands once, so all its entries go
  unfoldable pub delete : String → Dict V → Dict V
  delete k [] = []
  delete k ((j, v) ∷ d) = let rest = delete k d in if j == k then rest else (j, v) ∷ rest

  -- `{k: v for k, v in d.items() if k not in ks}`
  unfoldable pub without : List String → Dict V → Dict V
  without ks [] = []
  without ks ((j, v) ∷ d) = let rest = without ks d in if contains j ks then rest else (j, v) ∷ rest

  -- `d.update(more)`
  unfoldable pub update : Dict V → Dict V → Dict V
  update d [] = d
  update d ((k, v) ∷ more) = update (insert k v d) more

  pub lookup-insert :
      (k j : String) (v : V) (d : Dict V)
      → lookup j (insert k v d) ≡ (if k == j then some v else lookup j d)
  unfolding lookup insert
  lookup-insert k j v [] = refl
  lookup-insert k j v ((i, w) ∷ d) =
      ground (arith, eq_iff k j, eq_iff i k, eq_iff i j, lookup-insert k j v d)

  pub lookup-delete :
      (k j : String) (d : Dict V) → lookup j (delete k d) ≡ (if k == j then none else lookup j d)
  unfolding lookup delete
  lookup-delete k j [] = ground arith
  lookup-delete k j ((i, w) ∷ d) =
      ground (arith, eq_iff k j, eq_iff i k, eq_iff i j, lookup-delete k j d)

  pub lookup-without :
      (ks : List String) (j : String) (d : Dict V)
      → lookup j (without ks d) ≡ (if contains j ks then none else lookup j d)
  unfolding lookup without
  lookup-without ks j [] = ground arith
  lookup-without ks j ((i, w) ∷ d) = ground (arith, eq_iff i j, ap_contains, lookup-without ks j d)
    where
      ap_contains : i ≡ j → contains i ks ≡ contains j ks
      ap_contains q = mathlib.Core.Path.ap (λ x. contains x ks) q

  pub has-insert : (k j : String) (v : V) (d : Dict V) → has j (insert k v d) ≡ (k == j || has j d)
  has-insert k j v d = rw lookup-insert (ground arith)

  pub has-delete :
      (k j : String) (d : Dict V) → has j (delete k d) ≡ (if k == j then false else has j d)
  has-delete k j d = rw lookup-delete (ground arith)

  -- A new key goes to the end.
  pub insert_new :
      (k : String) (v : V) (d : Dict V) → has k d ≡ false → insert k v d ≡ d ++ (k, v) ∷ []
  unfolding lookup insert
  insert_new k v [] h = refl
  insert_new k v ((j, w) ∷ d) h = ground (arith, insert_new k v d)

  -- No key stands twice.
  abbrev pub Unique : Dict V → Type 0
  Unique [] = Unit
  Unique ((k, v) ∷ d) = (has k d ≡ false) × Unique d

  pub insert-Unique : (k : String) (v : V) (d : Dict V) → Unique d → Unique (insert k v d)
  unfolding insert lookup
  insert-Unique k v [] u = (refl, tt)
  insert-Unique k v ((j, w) ∷ d) (n, u) = elim (Bool-cases (j == k)) [
    | inl e ↦ rw e (n, u)
    | inr e ↦
        rw e
          (rw (has-insert k j v d) (ground (arith, eq_iff j k, eq_iff k j)), insert-Unique k v d u)
  ]

  abbrev pub or_else : Option V → Option V → Option V
  or_else none o = o
  or_else (some v) o = some v

  -- After an update the new entries come first, and the others are as before.
  pub lookup-update :
      (j : String) (d more : Dict V)
      → Unique more
      → lookup j (update d more) ≡ or_else (lookup j more) (lookup j d)
  unfolding update lookup
  lookup-update j d [] u = refl
  lookup-update j d ((k, v) ∷ more) (n, u) =
      lookup-update j (insert k v d) more u
      ∙ rw (lookup-insert k j v d) (elim (==-cases k j) [
        | inl (t, e) ↦ rw t (ground (arith, none_at e))
        | inr (t, e) ↦ rw t refl
      ])
    where
      none_at : k ≡ j → has j more ≡ false
      none_at e = rw e at n

  -- `if o is not None: d[k] = f(o)`
  unfoldable pub put_opt {κ} : {A : Type κ} → String → (A → V) → Option A → Dict V → Dict V
  put_opt k f none d = d
  put_opt k f (some a) d = insert k (f a) d

  pub put_opt-Unique {κ} :
      {A : Type κ} (k : String) (f : A → V) (o : Option A) (d : Dict V)
      → Unique d
      → Unique (put_opt k f o d)
  unfolding put_opt
  put_opt-Unique k f none d u = u
  put_opt-Unique k f (some a) d u = insert-Unique k (f a) d u

  abbrev pub map_option {κ} : {A : Type κ} → (A → V) → Option A → Option V
  map_option f none = none
  map_option f (some a) = some (f a)

  pub lookup-put_opt {κ} :
      {A : Type κ} (k j : String) (f : A → V) (o : Option A) (d : Dict V)
      → lookup j (put_opt k f o d)
        ≡ (if k == j then or_else (map_option f o) (lookup j d) else lookup j d)
  unfolding put_opt
  lookup-put_opt k j f none d = ground arith
  lookup-put_opt k j f (some a) d = lookup-insert k j (f a) d
