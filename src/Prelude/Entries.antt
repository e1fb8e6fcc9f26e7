-- ===== src/Prelude/Entries.antt =====
-- Predicates on the keys and on the values of a map.
use mathlib.Core.Path.{◌≡◌}
use Prim.Native.Nat.{suc, ◌≤◌}
use native.Mathlib.Omega.{arith}
use hmlb.Prelude.Lists.{length}
use mathlib.Core.Logic.{inl, inr}
use mathlib.Core.Option.{some, some-injective}
use mathlib.Core.List.{[], ◌∷◌}
use hmlb.Prelude.Tests.{Bool-cases}
use hmlb.Prelude.Equality.{Eq, ◌==◌}
use hmlb.Prelude.All.{All}
use hmlb.Prelude.Maps.{Map, keys, values, lookup, insert}

module _ {ℓ κ μ} {K : Type ℓ} {V : Type κ} ⦃e : Eq K⦄ where
  pub All-keys-insert :
      (P : K → Type μ) (k : K) (v : V) (m : Map K V)
      → P k
      → All P (keys m)
      → All P (keys (insert k v m))
  unfolding insert
  All-keys-insert P k v [] p all = (p, tt)
  All-keys-insert P k v ((j, w) ∷ m) p all = elim (Bool-cases (j == k)) [
    | inl hit ↦ rw (hit, insert) all
    | inr miss ↦ rw (miss, insert) (all.0, All-keys-insert P k v m p all.1)
  ]

  pub All-values-insert :
      (P : V → Type μ) (k : K) (v : V) (m : Map K V)
      → P v
      → All P (values m)
      → All P (values (insert k v m))
  unfolding insert
  All-values-insert P k v [] p all = (p, tt)
  All-values-insert P k v ((j, w) ∷ m) p all = elim (Bool-cases (j == k)) [
    | inl hit ↦ rw (hit, insert) (p, all.1)
    | inr miss ↦ rw (miss, insert) (all.0, All-values-insert P k v m p all.1)
  ]

  pub lookup-All_keys :
      (P : K → Type μ) (k : K) (v : V) (m : Map K V) → All P (keys m) → lookup k m ≡ some v → P k
  unfolding lookup
  lookup-All_keys P k v [] all h = cc
  lookup-All_keys P k v ((j, w) ∷ m) all h = elim (Bool-cases (j == k)) [
    | inl hit ↦ rw (← (e.beq_iff j k).0 hit) all.0
    | inr miss ↦ lookup-All_keys P k v m all.1 (rw (miss, lookup) at h)
  ]

  pub lookup-All_values :
      (P : V → Type μ) (k : K) (v : V) (m : Map K V) → All P (values m) → lookup k m ≡ some v → P v
  unfolding lookup
  lookup-All_values P k v [] all h = cc
  lookup-All_values P k v ((j, w) ∷ m) all h = elim (Bool-cases (j == k)) [
    | inl hit ↦ rw (← some-injective w v (rw (hit, lookup) at h)) all.0
    | inr miss ↦ lookup-All_values P k v m all.1 (rw (miss, lookup) at h)
  ]

module _ {ℓ κ} {K : Type ℓ} {V : Type κ} ⦃e : Eq K⦄ where
  pub length-insert : (k : K) (v : V) (m : Map K V) → length (insert k v m) ≤ suc (length m)
  unfolding insert
  length-insert k v [] = ground arith
  length-insert k v ((j, w) ∷ m) = ground (arith, length-insert k v m)
