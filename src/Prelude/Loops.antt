-- ===== src/Prelude/Loops.antt =====
-- A `for` over a list of keys that changes the value behind each key through a pointer.
use mathlib.Core.Path.{◌≡◌, refl, sym, ap, ◌∙◌}
use mathlib.Core.Logic.{inl, inr}
use mathlib.Core.Option.{Option, none, some}
use mathlib.Core.Option
use mathlib.Core.Bool.{true}
use mathlib.Core.List.{List, [], ◌∷◌}
use hmlb.Prelude.Tests.{Bool-cases, Option-cases}
use hmlb.Prelude.Equality.{Eq, ◌==◌}
use hmlb.Prelude.All.{Fresh, Distinct}
use hmlb.Prelude.Maps.{Map, keys, map_values, lookup, insert}

module _ {ℓ κ} {K : Type ℓ} {V : Type κ} ⦃e : Eq K⦄ where
  -- `none` is the fault of reading through the nil pointer that a missing key gives.
  unfoldable pub update_each : (K → V → V) → List K → Map K V → Option (Map K V)
  update_each f [] m = some m
  update_each f (k ∷ ks) m = elim (lookup k m) [
    | none ↦ none
    | some v ↦ update_each f ks (insert k (f k v) m)
  ]

  update_each-cons :
      (f : K → V → V) (ks : List K) (k : K) (w : V) (m : Map K V)
      → Fresh k ks
      → update_each f ks ((k, w) ∷ m) ≡ Option.map (λ n. (k, w) ∷ n) (update_each f ks m)
  unfolding update_each lookup insert
  update_each-cons f [] k w m fresh = refl
  update_each-cons f (j ∷ ks) k w m fresh = elim (Bool-cases (k == j)) [
    | inl hit ↦ absurd (fresh.0 (sym ((e.beq_iff k j).0 hit)))
    | inr miss ↦ elim (Option-cases (lookup j m)) [
      | inl gone ↦ rw (miss, gone, lookup, update_each) refl
      | inr (v, found) ↦
          rw (miss, found, lookup, insert, update_each, miss)
            (update_each-cons f ks k w (insert j (f j v) m) fresh.1)
    ]
  ]

  update_each-head :
      (f : K → V → V) (ks : List K) (k : K) (v : V) (m : Map K V)
      → update_each f (k ∷ ks) ((k, v) ∷ m) ≡ update_each f ks ((k, f k v) ∷ m)
  unfolding update_each lookup insert
  update_each-head f ks k v m =
      let here : (k == k) ≡ true = (e.beq_iff k k).1 refl in
      rw (here, lookup, update_each, insert, here) refl

  -- A loop over all the keys reaches every value, and faults nowhere.
  pub update_each-map_values :
      (f : K → V → V) (m : Map K V)
      → Distinct (keys m)
      → update_each f (keys m) m ≡ some (map_values f m)
  unfolding update_each
  update_each-map_values f [] d = refl
  update_each-map_values f ((k, v) ∷ m) d =
      update_each-head f (keys m) k v m
      ∙ update_each-cons f (keys m) k (f k v) m d.0
      ∙ ap (Option.map (λ n. (k, f k v) ∷ n)) (update_each-map_values f m d.1)
