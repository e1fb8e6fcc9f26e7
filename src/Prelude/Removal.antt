-- ===== src/Prelude/Removal.antt =====
-- Values taken out of a list.
use mathlib.Core.Path.{◌≡◌, refl, sym, ap}
use mathlib.Core.Logic.{◌≢◌, inl, inr}
use mathlib.Core.List.{List, [], ◌∷◌}
use native.Mathlib.Omega.{arith}
use hmlb.Prelude.Tests.{if◌then◌else◌, Bool-cases}
use hmlb.Prelude.Equality.{Eq, ◌==◌}
use hmlb.Prelude.All.{All, Fresh, Distinct}

module _ {ℓ} {A : Type ℓ} ⦃e : Eq A⦄ where
  -- `x` without every occurrence of a value.
  unfoldable pub remove : A → List A → List A
  remove a [] = []
  remove a (x ∷ xs) = if x == a then remove a xs else x ∷ remove a xs

  pub Fresh-remove : (a : A) (xs : List A) → Fresh a (remove a xs)
  unfolding remove
  Fresh-remove a [] = tt
  Fresh-remove a (x ∷ xs) = ground (arith, e.beq_iff x a, Fresh-remove a xs)

  pub All-remove {κ} : (P : A → Type κ) (a : A) (xs : List A) → All P xs → All P (remove a xs)
  unfolding remove
  All-remove P a [] h = tt
  All-remove P a (x ∷ xs) h = elim (Bool-cases (x == a)) [
    | inl hit ↦ rw (hit, remove) (All-remove P a xs h.1)
    | inr miss ↦ rw (miss, remove) (h.0, All-remove P a xs h.1)
  ]

  pub Distinct-remove : (a : A) (xs : List A) → Distinct xs → Distinct (remove a xs)
  unfolding remove
  Distinct-remove a [] d = tt
  Distinct-remove a (x ∷ xs) d = elim (Bool-cases (x == a)) [
    | inl hit ↦ rw (hit, remove) (Distinct-remove a xs d.1)
    | inr miss ↦ rw (miss, remove) (All-remove (λ y. y ≢ x) a xs d.0, Distinct-remove a xs d.1)
  ]

module _ {ℓ} {A : Type ℓ} ⦃e : Eq A⦄ where
  -- The first occurrence taken out, as `append(xs[:i], xs[i+1:]...)` after a search does.
  unfoldable pub remove_first : A → List A → List A
  remove_first a [] = []
  remove_first a (x ∷ xs) = if x == a then xs else x ∷ remove_first a xs

  remove-Fresh : (a : A) (xs : List A) → Fresh a xs → remove a xs ≡ xs
  unfolding remove
  remove-Fresh a [] f = refl
  remove-Fresh a (x ∷ xs) f = ground (arith, e.beq_iff x a, remove-Fresh a xs f.1)

  Fresh-of_eq : {x a : A} (xs : List A) → x ≡ a → Fresh x xs → Fresh a xs
  Fresh-of_eq xs p f = rw (← p) f

  pub remove_first-remove : (a : A) (xs : List A) → Distinct xs → remove_first a xs ≡ remove a xs
  unfolding remove_first remove
  remove_first-remove a [] d = refl
  remove_first-remove a (x ∷ xs) d = elim (Bool-cases (x == a)) [
    | inl hit ↦
        rw (hit, remove, remove_first)
          (sym (remove-Fresh a xs (Fresh-of_eq xs ((e.beq_iff x a).0 hit) d.0)))
    | inr miss ↦ rw (miss, remove, remove_first) (ap (◌∷◌ x) (remove_first-remove a xs d.1))
  ]
