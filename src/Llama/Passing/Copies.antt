-- ===== src/Llama/Passing/Copies.antt =====
-- What the copy of a message's headers holds.
use mathlib.Core.Path.{subst}
use mathlib.Core.List.{append-nil, append_assoc}
use hmlb.Prelude.{
  ◌≡◌, ◌≢◌, refl, sym, ap, ◌∙◌, List, [], ◌∷◌, ◌++◌, Text, text_eq, from_option, inl, inr,
  Bool-cases, ◌==◌,
}
use hmlb.Prelude.All.{All, Fresh, Distinct}
use hmlb.Prelude.Maps.{keys, lookup, lookup-insert_self, lookup-insert_ne, lookup-Fresh}
use hmlb.Http.{Headers, canonical, add_header, add_values, add_all}

-- `Header[k]`, no values where there is no such name.
abbrev pub values_of : Text → Headers → List Text
values_of k h = from_option [] (lookup k h)

-- Headers as net/http makes them: a map with canonical names.
pub record IsNetHeaders (h : Headers) : Type 0 where
  pub names : All (λ k. canonical k ≡ k) (keys h)
  pub distinct : Distinct (keys h)

-- The same values under every name.
abbrev pub SameHeaders : Headers → Headers → Type 0
SameHeaders h i = (k : Text) → values_of k h ≡ values_of k i

add_values_self :
    (k : Text) (vs : List Text) (w : Headers)
    → canonical k ≡ k
    → values_of k (add_values k vs w) ≡ values_of k w ++ vs
unfolding add_values add_header
add_values_self k [] w fixed = sym (append-nil (values_of k w))
add_values_self k (v ∷ vs) w fixed =
    add_values_self k vs (add_header k v w) fixed
    ∙ ap (λ us. us ++ vs) (added k v w fixed)
    ∙ append_assoc (values_of k w) (v ∷ []) vs
  where
    added :
        (k v : Text) (w : Headers)
        → canonical k ≡ k
        → values_of k (add_header k v w) ≡ values_of k w ++ v ∷ []
    added k v w fixed = rw (fixed, lookup-insert_self k (values_of k w ++ v ∷ []) w) refl

add_values_ne :
    (j k : Text) (vs : List Text) (w : Headers)
    → canonical j ≡ j
    → j ≢ k
    → values_of k (add_values j vs w) ≡ values_of k w
unfolding add_values add_header
add_values_ne j k [] w fixed ne = refl
add_values_ne j k (v ∷ vs) w fixed ne =
    add_values_ne j k vs (add_header j v w) fixed ne
    ∙ rw (fixed, lookup-insert_ne j k (values_of j w ++ v ∷ []) w ne) refl

add_values_joined :
    (j : Text) (vs : List Text) (h w : Headers)
    → canonical j ≡ j
    → Fresh j (keys h)
    → values_of j (add_values j vs w) ++ values_of j h ≡ values_of j w ++ vs
add_values_joined j vs h w fixed fresh =
    rw (lookup-Fresh j h fresh)
      (append-nil (values_of j (add_values j vs w)) ∙ add_values_self j vs w fixed)

-- A copied map adds its values, under each name, behind those that are there.
add_all-values_of :
    (k : Text) (h w : Headers)
    → All (λ j. canonical j ≡ j) (keys h)
    → Distinct (keys h)
    → values_of k (add_all h w) ≡ values_of k w ++ values_of k h
unfolding add_all lookup
add_all-values_of k [] w names distinct = sym (append-nil (values_of k w))
add_all-values_of k ((j, vs) ∷ h) w names distinct = elim (Bool-cases (j == k)) [
  | inl hit ↦
      add_all-values_of k h (add_values j vs w) names.1 distinct.1
      ∙ rw hit (
          subst (λ i. values_of i (add_values j vs w) ++ values_of i h ≡ values_of i w ++ vs)
            ((text_eq.beq_iff j k).0 hit) (add_values_joined j vs h w names.0 distinct.0))
  | inr miss ↦
      let ne : j ≢ k = λ e. cc (sym ((text_eq.beq_iff j k).1 e) ∙ miss) in
      add_all-values_of k h (add_values j vs w) names.1 distinct.1
      ∙ rw (add_values_ne j k vs w names.0 ne, miss) refl
]

pub add_all-SameHeaders : (h : Headers) → IsNetHeaders h → SameHeaders (add_all h []) h
unfolding lookup
add_all-SameHeaders h net k = add_all-values_of k h [] net.names net.distinct
