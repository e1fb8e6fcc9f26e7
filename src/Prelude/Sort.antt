-- ===== src/Prelude/Sort.antt =====
-- Stable sorting by a test, as `sort.SliceStable` does it.
use mathlib.Core.Path.{◌≡◌}
use mathlib.Core.Bool.{Bool, true, false}
use mathlib.Core.List.{List, [], ◌∷◌, Perm}
use mathlib.Core.List.Perm
use mathlib.Core.Logic.{inl, inr}
use hmlb.Prelude.Tests.{if◌then◌else◌, Bool-cases}
use hmlb.Prelude.All.{All, All-mono}

-- The laws of a test that sorts: a strict weak order.
pub record IsOrder {ℓ} {A : Type ℓ} (less : A → A → Bool) : Type ℓ where
  pub asym : (a b : A) → less a b ≡ true → less b a ≡ false
  pub trans : (a b c : A) → less b a ≡ false → less c b ≡ false → less c a ≡ false

module _ {ℓ} {A : Type ℓ} (less : A → A → Bool) where
  unfoldable pub insert_stable : A → List A → List A
  insert_stable x [] = x ∷ []
  insert_stable x (y ∷ ys) = if less y x then y ∷ insert_stable x ys else x ∷ y ∷ ys

  unfoldable pub sort_stable : List A → List A
  unfolding insert_stable
  sort_stable [] = []
  sort_stable (x ∷ xs) = insert_stable x (sort_stable xs)

  -- No later item belongs before an earlier one.
  abbrev pub IsSorted : List A → Type ℓ
  IsSorted [] = Unit
  IsSorted (x ∷ xs) = All (λ y. less y x ≡ false) xs × IsSorted xs

  insert_stable-perm : (x : A) (xs : List A) → Perm (insert_stable x xs) (x ∷ xs)
  unfolding insert_stable
  insert_stable-perm x [] = Perm.rfl
  insert_stable-perm x (y ∷ ys) = elim (Bool-cases (less y x)) [
    | inl before ↦
        rw (before, insert_stable)
          (Perm.trans (Perm.cons y (insert_stable-perm x ys)) (Perm.swap x y ys))
    | inr after ↦ rw (after, insert_stable) Perm.rfl
  ]

  -- Sorting loses and invents nothing.
  pub sort_stable-perm : (xs : List A) → Perm (sort_stable xs) xs
  unfolding sort_stable
  sort_stable-perm [] = Perm.rfl
  sort_stable-perm (x ∷ xs) =
      Perm.trans (insert_stable-perm x (sort_stable xs)) (Perm.cons x (sort_stable-perm xs))

  All-insert_stable {κ} :
      (P : A → Type κ) (x : A) (xs : List A) → P x → All P xs → All P (insert_stable x xs)
  unfolding insert_stable
  All-insert_stable P x [] h a = (h, tt)
  All-insert_stable P x (y ∷ ys) h a = elim (Bool-cases (less y x)) [
    | inl before ↦ rw (before, insert_stable) (a.0, All-insert_stable P x ys h a.1)
    | inr after ↦ rw (after, insert_stable) (h, (a.0, a.1))
  ]

  pub All-sort_stable {κ} : (P : A → Type κ) (xs : List A) → All P xs → All P (sort_stable xs)
  unfolding sort_stable
  All-sort_stable P [] a = tt
  All-sort_stable P (x ∷ xs) a =
      All-insert_stable P x (sort_stable xs) a.0 (All-sort_stable P xs a.1)

  insert_stable-IsSorted :
      IsOrder less → (x : A) (xs : List A) → IsSorted xs → IsSorted (insert_stable x xs)
  unfolding insert_stable
  insert_stable-IsSorted o x [] s = (tt, tt)
  insert_stable-IsSorted o x (y ∷ ys) s = elim (Bool-cases (less y x)) [
    | inl before ↦
        rw (before, insert_stable)
          (
            All-insert_stable (λ z. less z y ≡ false) x ys (o.asym y x before) s.0,
            insert_stable-IsSorted o x ys s.1,
          )
    | inr after ↦
        rw (after, insert_stable)
          (
            (
              after,
              All-mono (λ z. less z y ≡ false) (λ z. less z x ≡ false) ys
                  (λ z h. o.trans x y z after h) s.0,
            ),
            s,
          )
  ]

  -- The result is in order.
  pub sort_stable-IsSorted : IsOrder less → (xs : List A) → IsSorted (sort_stable xs)
  unfolding sort_stable
  sort_stable-IsSorted o [] = tt
  sort_stable-IsSorted o (x ∷ xs) =
      insert_stable-IsSorted o x (sort_stable xs) (sort_stable-IsSorted o xs)

-- Each item stands in a relation to every later one.
abbrev pub IsOrdered {ℓ} : {A : Type ℓ} → (A → A → Type 0) → List A → Type 0
IsOrdered R [] = Unit
IsOrdered R (x ∷ xs) = All (R x) xs × IsOrdered R xs

-- What a test that sorts leaves in order, read as a relation.
pub IsSorted-IsOrdered {ℓ} :
    {A : Type ℓ} (less : A → A → Bool) (R : A → A → Type 0) (xs : List A)
    → ((x y : A) → less y x ≡ false → R x y)
    → IsSorted less xs
    → IsOrdered R xs
IsSorted-IsOrdered less R [] reads s = tt
IsSorted-IsOrdered less R (x ∷ xs) reads s = (
  All-mono (λ y. less y x ≡ false) (R x) xs (reads x) s.0,
  IsSorted-IsOrdered less R xs reads s.1,
)
