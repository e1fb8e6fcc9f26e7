-- ===== src/Llama/Order.antt =====
-- The exchange sort sorts.
use hmlb.Prelude.{
  ℕ, zero, suc, ◌≤◌, ◌<◌, ◌≡◌, refl, ap, Bool, false, List, [], ◌∷◌, ltb, length, arith, inl, inr,
  ◌⊎◌, Bool-cases,
}
use mathlib.Core.List.{Perm}
use mathlib.Core.List.Perm
use hmlb.Prelude.All.{All, All-mono}
use hmlb.Prelude.Sort.{IsSorted}
use hmlb.Llama.Select.{GroupScore, exchange, exchange_sort, pick_groups, scored}

abbrev pub better : GroupScore → GroupScore → Bool
better a b = ltb b.score a.score

exchange-perm :
    (x : GroupScore) (xs : List GroupScore) → Perm ((exchange x xs).0 ∷ (exchange x xs).1) (x ∷ xs)
unfolding exchange
exchange-perm x [] = Perm.rfl
exchange-perm x (y ∷ ys) = elim (Bool-cases (ltb x.score y.score)) [
  | inl swap ↦
      rw (swap, exchange)
        (Perm.trans (Perm.swap x (exchange y ys).0 (exchange y ys).1)
          (Perm.cons x (exchange-perm y ys)))
  | inr stay ↦
      rw (stay, exchange)
        (Perm.trans (Perm.swap y (exchange x ys).0 (exchange x ys).1)
          (Perm.trans (Perm.cons y (exchange-perm x ys)) (Perm.swap x y ys)))
]

exchange-top :
    (x : GroupScore) (xs : List GroupScore)
    → (x.score ≤ (exchange x xs).0.score)
      × All (λ y. y.score ≤ (exchange x xs).0.score) (exchange x xs).1
      × (length (exchange x xs).1 ≡ length xs)
unfolding exchange
exchange-top x [] = (omega arith, tt, refl)
exchange-top x (y ∷ ys) = elim (Bool-cases (ltb x.score y.score)) [
  | inl swap ↦
      let (more, all, len) = exchange-top y ys in
      rw (swap, exchange) (ground (arith, more), (ground (arith, more), all), ap suc len)
  | inr stay ↦
      let (more, all, len) = exchange-top x ys in
      rw (stay, exchange) (more, (ground (arith, more), all), ap suc len)
]

All-exchange {κ} :
    (P : GroupScore → Type κ) (x : GroupScore) (xs : List GroupScore)
    → P x
    → All P xs
    → P (exchange x xs).0 × All P (exchange x xs).1
unfolding exchange
All-exchange P x [] h a = (h, tt)
All-exchange P x (y ∷ ys) h a = elim (Bool-cases (ltb x.score y.score)) [
  | inl swap ↦
      rw (swap, exchange) ((All-exchange P y ys a.0 a.1).0, (h, (All-exchange P y ys a.0 a.1).1))
  | inr stay ↦
      rw (stay, exchange) ((All-exchange P x ys h a.1).0, (a.0, (All-exchange P x ys h a.1).1))
]

All-exchange_sort {κ} :
    (P : GroupScore → Type κ) (n : ℕ) (xs : List GroupScore) → All P xs → All P (exchange_sort n xs)
unfolding exchange_sort
All-exchange_sort P zero xs a = a
All-exchange_sort P (suc n) [] a = tt
All-exchange_sort P (suc n) (x ∷ xs) a =
    let (top, rest) = All-exchange P x xs a.0 a.1 in
    (top, All-exchange_sort P n (exchange x xs).1 rest)

-- As many rounds as there are items sort them by their scores, the best first, and lose none.
pub exchange_sort_lem :
    (n : ℕ) (xs : List GroupScore)
    → length xs ≡ n
    → Perm (exchange_sort n xs) xs × IsSorted better (exchange_sort n xs)
unfolding exchange_sort
exchange_sort_lem zero [] e = (Perm.rfl, tt)
exchange_sort_lem zero (x ∷ xs) e = absurd (omega arith)
exchange_sort_lem (suc n) [] e = (Perm.rfl, tt)
exchange_sort_lem (suc n) (x ∷ xs) e =
    let (more, all, len) = exchange-top x xs in
    let (same, sorted) = exchange_sort_lem n (exchange x xs).1 (omega arith) in
    (
      Perm.trans (Perm.cons (exchange x xs).0 same) (exchange-perm x xs),
      (
        All-exchange_sort (λ y. better y (exchange x xs).0 ≡ false) n (exchange x xs).1
            (All-mono (λ y. y.score ≤ (exchange x xs).0.score)
              (λ y. better y (exchange x xs).0 ≡ false) (exchange x xs).1 (λ y h. ground arith)
              all),
        sorted,
      ),
    )

-- Of groups in the order of their scores, the best first, those with a score are picked if the
-- first has one; otherwise all scores are 0, and the first group alone is picked.
pub pick_groups_lem :
    (g : GroupScore) (gs : List GroupScore)
    → IsSorted better (g ∷ gs)
    → ((0 < g.score) × (pick_groups (g ∷ gs) ≡ scored (g ∷ gs)))
      ⊎ (All (λ x. x.score ≡ 0) (g ∷ gs) × (pick_groups (g ∷ gs) ≡ g.group ∷ []))
unfolding pick_groups scored
pick_groups_lem g gs s = elim (Bool-cases (ltb 0 g.score)) [
  | inl some_score ↦ inl (ground arith, rw (some_score, pick_groups, scored) refl)
  | inr none_at_all ↦
      let zeros : All (λ x. x.score ≡ 0) gs =
        All-mono (λ x. better x g ≡ false) (λ x. x.score ≡ 0) gs (λ x h. ground arith) s.0 in
      inr ((ground arith, zeros), rw (none_at_all, pick_groups, scored, unscored gs zeros) refl)
]
  where
    unscored : (xs : List GroupScore) → All (λ x. x.score ≡ 0) xs → scored xs ≡ []
    unscored [] a = refl
    unscored (x ∷ xs) a = ground (arith, a.0, unscored xs a.1)
