-- ===== src/Flappy/Hub/Names.antt =====
-- `uniqueName` ends: one more candidate than there are names is enough.
use hmlb.Prelude.{
  ℕ, zero, suc, ◌+◌, ◌≤◌, ◌<◌, ◌≡◌, ◌≢◌, refl, sym, ap, ◌∙◌, false, List, [], ◌∷◌, ◌++◌, some, Text,
  text, text_eq, arith, inl, inr, Bool-cases, Option-cases, length, nat_beq, ◌==◌, length-append,
}
use hmlb.Prelude.Decimal.{decimal}
use hmlb.Prelude.Decimals.{decimal_injective}
use hmlb.Prelude.Maps.{Map, lookup, delete, lookup-delete_ne}
use hmlb.Flappy.Hub.Defs.{name_taken, unique_from, unique_name}

append_cancel {ℓ} : {A : Type ℓ} (xs : List A) {ys zs : List A} → xs ++ ys ≡ xs ++ zs → ys ≡ zs
append_cancel [] e = e
append_cancel (x ∷ xs) e = append_cancel xs (cc)

abbrev pub numbered : Text → ℕ → Text
numbered base n = base ++ (text " " ++ decimal n)

numbered_ne : (base : Text) (m n : ℕ) → m < n → numbered base m ≢ numbered base n
numbered_ne base m n h e =
    let tails : text " " ++ decimal m ≡ text " " ++ decimal n = append_cancel base e in
    let same : m ≡ n = decimal_injective m n (append_cancel (text " ") tails) in omega arith

length-delete-le : (k : Text) (m : Map Text ℕ) → length (delete k m) ≤ length m
unfolding delete
length-delete-le k [] = omega arith
length-delete-le k ((j, w) ∷ m) = ground (arith, length-delete-le k m)

-- A key that is there can be taken out, which makes the map shorter.
length-delete_lt :
    (k : Text) (v : ℕ) (m : Map Text ℕ) → lookup k m ≡ some v → length (delete k m) < length m
unfolding lookup delete
length-delete_lt k v [] h = cc
length-delete_lt k v ((j, w) ∷ m) h = elim (Bool-cases (j == k)) [
  | inl hit ↦ rw (hit, delete) (omega (arith, length-delete-le k m))
  | inr miss ↦ rw (miss, delete) (omega (arith, length-delete_lt k v m (rw (miss, lookup) at h)))
]

-- Taking out a name frees no other name.
name_taken-delete :
    (gone name : Text) (names : Map Text ℕ)
    → gone ≢ name
    → name_taken (delete gone names) name ≡ name_taken names name
unfolding name_taken
name_taken-delete gone name names ne = rw (lookup-delete_ne gone name names ne) refl

-- The loop takes no notice of a name that it never tries.
unique_from-delete :
    (gone : Text) (fuel : ℕ) (names : Map Text ℕ) (base : Text) (n : ℕ) (name : Text)
    → gone ≢ name
    → ((k : ℕ) → n ≤ k → gone ≢ numbered base k)
    → unique_from fuel names base n name ≡ unique_from fuel (delete gone names) base n name
unfolding unique_from
unique_from-delete gone zero names base n name ne later = refl
unique_from-delete gone (suc fuel) names base n name ne later =
    let same = name_taken-delete gone name names ne in
    elim (Bool-cases (name_taken names name)) [
      | inr free ↦ rw (same, unique_from, free) refl
      | inl taken ↦
          rw (same, unique_from, taken)
            (unique_from-delete gone fuel names base (n + 1) (numbered base n)
              (later n (omega arith)) (λ k h. later k (omega arith)))
    ]

unique_from-total :
    (fuel : ℕ) (names : Map Text ℕ) (base : Text) (n : ℕ) (name : Text)
    → length names < fuel
    → ((k : ℕ) → n ≤ k → name ≢ numbered base k)
    → (r : Text) × (unique_from fuel names base n name ≡ some r)
unfolding unique_from name_taken
unique_from-total zero names base n name h ne = elim h [ ]
unique_from-total (suc fuel) names base n name h ne = elim (Option-cases (lookup name names)) [
  | inl absent ↦ (name, rw (absent, unique_from) refl)
  | inr (v, found) ↦ elim (Bool-cases (nat_beq v 0)) [
    | inl empty ↦ (name, rw (found, unique_from, empty) refl)
    | inr taken ↦
        let (r, runs) =
          unique_from-total fuel (delete name names) base (n + 1) (numbered base n)
            (omega (arith, length-delete_lt name v names found))
            (λ k le. numbered_ne base n k (omega arith)) in
        let whole =
          unique_from-delete name fuel names base (n + 1) (numbered base n) (ne n (omega arith))
            (λ k le. ne k (omega arith)) in
        (r, rw (found, unique_from, taken) (whole ∙ runs))
  ]
]

some_text_eq : {a b : Text} → some a ≡ some b → a ≡ b
some_text_eq h = cc

pub unique_from-free :
    (fuel : ℕ) (names : Map Text ℕ) (base : Text) (n : ℕ) (name r : Text)
    → unique_from fuel names base n name ≡ some r
    → name_taken names r ≡ false
unfolding unique_from
unique_from-free zero names base n name r e = cc
unique_from-free (suc fuel) names base n name r e = elim (Bool-cases (name_taken names name)) [
  | inr free ↦ rw (some_text_eq (rw (free, unique_from) at e)) at free
  | inl taken ↦
      unique_from-free fuel names base (n + 1) (numbered base n) r (rw (taken, unique_from) at e)
]

base_ne : (base : Text) (k : ℕ) → base ≢ numbered base k
base_ne base k e = omega (
  arith,
  ap (λ (t : Text). length t) e,
  length-append base (text " " ++ decimal k),
  length-append (text " ") (decimal k),
)

-- `uniqueName` always ends. Its result is a name that nobody has: the base itself if it is free.
pub unique_name_total :
    (names : Map Text ℕ) (base : Text)
    → (r : Text) × (unique_name names base ≡ some r)
      × (name_taken names r ≡ false)
      × (name_taken names base ≡ false → r ≡ base)
unfolding unique_name unique_from
unique_name_total names base =
    let (r, runs) =
      unique_from-total (suc (length names)) names base 2 base (omega arith)
        (λ k h. base_ne base k) in
    (
      r,
      runs,
      unique_from-free (suc (length names)) names base 2 base r runs,
      λ free. sym (some_text_eq (rw (free, unique_from) at runs)),
    )
