-- ===== src/Prelude/Maps.antt =====
-- Go maps as association lists. `insert` overwrites in place or appends; `delete` drops the key.
use mathlib.Core.Path.{◌≡◌, refl, sym, ap, ◌∙◌, subst}
use mathlib.Core.Logic.{◌≢◌, ◌⊎◌, inl, inr}
use mathlib.Core.Bool.{Bool, true, false}
use mathlib.Core.Option
use mathlib.Core.Option.{Option, none, some}
use mathlib.Core.List.{List, [], ◌∷◌, ◌++◌}
use native.Mathlib.Omega.{arith}
use hmlb.Prelude.Tests.{if◌then◌else◌, Bool-cases, Option-cases}
use hmlb.Prelude.Equality.{Eq, ◌==◌}
use hmlb.Prelude.All.{All, All-mono, Fresh}
use hmlb.Prelude.Removal.{remove}

abbrev pub Map {ℓ κ} : Type ℓ → Type κ → Type (ℓ ⊔ κ)
Map K V = List (K × V)

module _ {ℓ κ} {K : Type ℓ} {V : Type κ} where
  abbrev pub keys : Map K V → List K
  keys [] = []
  keys ((k, v) ∷ m) = k ∷ keys m

  abbrev pub values : Map K V → List V
  values [] = []
  values ((k, v) ∷ m) = v ∷ values m

  -- Every value changed, by a function that sees its key.
  abbrev pub map_values : (K → V → V) → Map K V → Map K V
  map_values f [] = []
  map_values f ((k, v) ∷ m) = (k, f k v) ∷ map_values f m

  pub keys-map_values : (f : K → V → V) (m : Map K V) → keys (map_values f m) ≡ keys m
  keys-map_values f [] = refl
  keys-map_values f ((k, v) ∷ m) = ap (◌∷◌ k) (keys-map_values f m)

module _ {ℓ κ} {K : Type ℓ} {V : Type κ} ⦃e : Eq K⦄ where
  unfoldable pub lookup : K → Map K V → Option V
  lookup k [] = none
  lookup k ((j, v) ∷ m) = if j == k then some v else lookup k m

  unfoldable pub insert : K → V → Map K V → Map K V
  insert k v [] = (k, v) ∷ []
  insert k v ((j, w) ∷ m) = if j == k then (j, v) ∷ m else (j, w) ∷ insert k v m

  unfoldable pub delete : K → Map K V → Map K V
  delete k [] = []
  delete k ((j, w) ∷ m) = if j == k then delete k m else (j, w) ∷ delete k m

  unfoldable pub has_key : K → Map K V → Bool
  has_key k [] = false
  has_key k ((j, v) ∷ m) = if j == k then true else has_key k m

  pub lookup-insert :
      (k q : K) (v : V) (m : Map K V)
      → lookup q (insert k v m) ≡ (if k == q then some v else lookup q m)
  unfolding lookup insert
  lookup-insert k q v [] = refl
  lookup-insert k q v ((j, u) ∷ rest) =
      ground (arith, e.beq_iff k q, e.beq_iff j k, e.beq_iff j q, lookup-insert k q v rest)

  pub lookup-delete :
      (k j : K) (m : Map K V) → lookup j (delete k m) ≡ (if k == j then none else lookup j m)
  unfolding lookup delete
  lookup-delete k j [] = ground arith
  lookup-delete k j ((i, w) ∷ m) =
      ground (arith, e.beq_iff k j, e.beq_iff i k, e.beq_iff i j, lookup-delete k j m)

  pub lookup-Fresh : (k : K) (m : Map K V) → Fresh k (keys m) → lookup k m ≡ none
  unfolding lookup
  lookup-Fresh k [] f = refl
  lookup-Fresh k ((j, v) ∷ m) f = ground (arith, e.beq_iff j k, lookup-Fresh k m f.1)

  pub Fresh-lookup : (k : K) (m : Map K V) → lookup k m ≡ none → Fresh k (keys m)
  unfolding lookup
  Fresh-lookup k [] h = tt
  Fresh-lookup k ((j, v) ∷ m) h = ground (arith, e.beq_iff j k, Fresh-lookup k m)

  pub has_key-lookup-none : (k : K) (m : Map K V) → lookup k m ≡ none → has_key k m ≡ false
  unfolding lookup has_key
  has_key-lookup-none k [] h = refl
  has_key-lookup-none k ((j, v) ∷ m) h = ground (arith, has_key-lookup-none k m)

  pub has_key-lookup-some : (k : K) (m : Map K V) (v : V) → lookup k m ≡ some v → has_key k m ≡ true
  unfolding lookup has_key
  has_key-lookup-some k [] v h = cc
  has_key-lookup-some k ((j, w) ∷ m) v h = ground (arith, has_key-lookup-some k m v)

  pub keys-insert_new :
      (k : K) (v : V) (m : Map K V) → Fresh k (keys m) → keys (insert k v m) ≡ keys m ++ k ∷ []
  unfolding insert
  keys-insert_new k v [] f = refl
  keys-insert_new k v ((j, w) ∷ m) f = ground (arith, e.beq_iff j k, keys-insert_new k v m f.1)

  pub keys-delete : (k : K) (m : Map K V) → keys (delete k m) ≡ remove k (keys m)
  unfolding delete remove
  keys-delete k [] = refl
  keys-delete k ((j, w) ∷ m) = ground (arith, keys-delete k m)

  pub insert_new :
      (k : K) (v : V) (m : Map K V) → Fresh k (keys m) → insert k v m ≡ m ++ (k, v) ∷ []
  unfolding insert
  insert_new k v [] f = refl
  insert_new k v ((j, w) ∷ m) f = ground (arith, e.beq_iff j k, insert_new k v m f.1)

  pub keys-insert_old :
      (k : K) (v w : V) (m : Map K V) → lookup k m ≡ some w → keys (insert k v m) ≡ keys m
  unfolding insert lookup
  keys-insert_old k v w [] h = cc
  keys-insert_old k v w ((j, u) ∷ m) h = ground (arith, keys-insert_old k v w m)

  lookup-cons_Some :
      (j k : K) (u : V) (m : Map K V)
      → (v : V) × (lookup k m ≡ some v)
      → (v : V) × (lookup k ((j, u) ∷ m) ≡ some v)
  unfolding lookup
  lookup-cons_Some j k u m (v, h) = elim (Bool-cases (j == k)) [
    | inl hit ↦ (u, rw (hit, lookup))
    | inr miss ↦ (v, rw (miss, lookup) h)
  ]

  -- A key of the map has a value.
  pub lookup-keys : (m : Map K V) → All (λ k. (v : V) × (lookup k m ≡ some v)) (keys m)
  unfolding lookup
  lookup-keys [] = tt
  lookup-keys ((j, u) ∷ m) = (
    (u, rw (((e.beq_iff j j).1 refl), lookup)),
    All-mono (λ k. (v : V) × (lookup k m ≡ some v))
        (λ k. (v : V) × (lookup k ((j, u) ∷ m) ≡ some v)) (keys m)
        (λ k h. lookup-cons_Some j k u m h) (lookup-keys m),
  )

  pub lookup-map_values :
      (g : K → V → V) (k : K) (m : Map K V)
      → lookup k (map_values g m) ≡ Option.map (g k) (lookup k m)
  unfolding lookup
  lookup-map_values g k [] = refl
  lookup-map_values g k ((j, u) ∷ m) = elim (Bool-cases (j == k)) [
    | inl hit ↦
        let here : j ≡ k = (e.beq_iff j k).0 hit in rw (hit, lookup) (ap (λ i. some (g i u)) here)
    | inr miss ↦ rw (miss, lookup) (lookup-map_values g k m)
  ]

  pub lookup-insert_self : (k : K) (v : V) (m : Map K V) → lookup k (insert k v m) ≡ some v
  lookup-insert_self k v m = rw (lookup-insert k k v m, (e.beq_iff k k).1 refl) refl

  pub lookup-insert_ne :
      (k j : K) (v : V) (m : Map K V) → k ≢ j → lookup j (insert k v m) ≡ lookup j m
  lookup-insert_ne k j v m ne = elim (Bool-cases (k == j)) [
    | inl hit ↦ absurd (ne ((e.beq_iff k j).0 hit))
    | inr miss ↦ rw (lookup-insert k j v m, miss) refl
  ]

  pub lookup-delete_self : (k : K) (m : Map K V) → lookup k (delete k m) ≡ none
  lookup-delete_self k m = rw (lookup-delete k k m, (e.beq_iff k k).1 refl) refl

  pub lookup-delete_ne : (k j : K) (m : Map K V) → k ≢ j → lookup j (delete k m) ≡ lookup j m
  lookup-delete_ne k j m ne = elim (Bool-cases (k == j)) [
    | inl hit ↦ absurd (ne ((e.beq_iff k j).0 hit))
    | inr miss ↦ rw (lookup-delete k j m, miss) refl
  ]

  -- What is found after an `insert` is the new value, or an old one at another key.
  pub lookup-insert_inv :
      (k j : K) (v w : V) (m : Map K V)
      → lookup j (insert k v m) ≡ some w
      → ((k ≡ j) × (v ≡ w)) ⊎ ((k ≢ j) × (lookup j m ≡ some w))
  lookup-insert_inv k j v w m h = elim (Bool-cases (k == j)) [
    | inl hit ↦ inl ((e.beq_iff k j).0 hit, ground (arith, lookup-insert k j v m))
    | inr miss ↦ inr (ground (arith, e.beq_iff k j), ground (arith, lookup-insert k j v m))
  ]

  pub lookup-delete_inv :
      (k j : K) (w : V) (m : Map K V)
      → lookup j (delete k m) ≡ some w
      → (k ≢ j) × (lookup j m ≡ some w)
  lookup-delete_inv k j w m h = elim (Bool-cases (k == j)) [
    | inl hit ↦ cc (sym (rw (lookup-delete k j m, hit) at h))
    | inr miss ↦ (ground (arith, e.beq_iff k j), ground (arith, lookup-delete k j m))
  ]

-- What is a key of one map is one of any other with the same keys.
pub lookup-same_keys {ℓ κ μ} :
    {K : Type ℓ} {V : Type κ} {W : Type μ} ⦃e : Eq K⦄ (k : K) (v : V) (m : Map K V) (n : Map K W)
    → keys m ≡ keys n
    → lookup k m ≡ some v
    → (w : W) × (lookup k n ≡ some w)
lookup-same_keys k v m n same found = elim (Option-cases (lookup k n)) [
  | inl missing ↦ cc (
      sym found ∙ lookup-Fresh k m (subst (λ ks. Fresh k ks) (sym same) (Fresh-lookup k n missing)))
  | inr there ↦ there
]
