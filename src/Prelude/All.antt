-- ===== src/Prelude/All.antt =====
-- Predicates on lists by recursion: every item, no item equal to a given one, all items distinct.

use mathlib.Core.Path.{sym}
use mathlib.Core.Logic.{◌≢◌}
use mathlib.Core.List.{List, [], ◌∷◌, ◌++◌}

abbrev pub All {ℓ κ} : {A : Type ℓ} → (A → Type κ) → List A → Type κ
All P [] = Unit
All P (x ∷ xs) = P x × All P xs

abbrev pub Fresh {ℓ} : {A : Type ℓ} → A → List A → Type ℓ
Fresh a xs = All (λ x. x ≢ a) xs

abbrev pub Distinct {ℓ} : {A : Type ℓ} → List A → Type ℓ
Distinct [] = Unit
Distinct (x ∷ xs) = Fresh x xs × Distinct xs

module _ {ℓ κ} {A : Type ℓ} where
  pub All-append :
      (P : A → Type κ) (front back : List A) → All P front → All P back → All P (front ++ back)
  All-append P [] back f b = b
  All-append P (x ∷ front) back f b = (f.0, All-append P front back f.1 b)

  pub All-mono : (P Q : A → Type κ) (xs : List A) → ((x : A) → P x → Q x) → All P xs → All Q xs
  All-mono P Q [] h a = tt
  All-mono P Q (x ∷ xs) h a = (h x a.0, All-mono P Q xs h a.1)

module _ {ℓ} {A : Type ℓ} where
  pub Distinct-snoc : (xs : List A) (a : A) → Fresh a xs → Distinct xs → Distinct (xs ++ a ∷ [])
  Distinct-snoc [] a f d = (tt, tt)
  Distinct-snoc (x ∷ xs) a f d =
      (All-append (λ y. y ≢ x) xs (a ∷ []) d.0 ((λ e. f.0 (sym e)), tt), Distinct-snoc xs a f.1 d.1)

  All-mid {κ} : (P : A → Type κ) (xs : List A) (a : A) (ys : List A) → All P (xs ++ a ∷ ys) → P a
  All-mid P [] a ys h = h.0
  All-mid P (x ∷ xs) a ys h = All-mid P xs a ys h.1

  -- Of distinct items none stands before itself.
  pub Fresh-Distinct : (xs : List A) (a : A) (ys : List A) → Distinct (xs ++ a ∷ ys) → Fresh a xs
  Fresh-Distinct [] a ys d = tt
  Fresh-Distinct (x ∷ xs) a ys d =
      (λ e. All-mid (λ y. y ≢ x) xs a ys d.0 (sym e), Fresh-Distinct xs a ys d.1)
