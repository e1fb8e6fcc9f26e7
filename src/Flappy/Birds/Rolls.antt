-- ===== src/Flappy/Birds/Rolls.antt =====
-- A new player's bird is valid, and free while the rolls find a free one.
use hmlb.Prelude.{ℕ, zero, suc, ◌<◌, ◌≡◌, Bool, true, false, arith, inl, inr, Bool-cases}
use hmlb.Flappy.Birds.{Bird, valid, roll, random_bird_loop, random_bird}
use hmlb.Flappy.Rng.{Rng}

roll-valid : (r : Rng) → valid (roll r).0 ≡ true
unfolding valid roll
roll-valid r = ground arith

loop_valid : (n : ℕ) (r : Rng) (taken : Bird → Bool) → valid (random_bird_loop n r taken).0 ≡ true
unfolding random_bird_loop
loop_valid zero r taken = roll-valid r
loop_valid (suc n) r taken = elim (Bool-cases (taken (roll r).0)) [
  | inl hit ↦ rw (hit, random_bird_loop) (loop_valid n (roll r).1 taken)
  | inr free ↦ rw (free, random_bird_loop) (roll-valid r)
]

-- The candidates, one after the other.
abbrev pub candidate : ℕ → Rng → Bird
candidate zero r = (roll r).0
candidate (suc n) r = candidate n (roll r).1

loop_free :
    (n i : ℕ) (r : Rng) (taken : Bird → Bool)
    → i < n
    → taken (candidate i r) ≡ false
    → taken (random_bird_loop n r taken).0 ≡ false
unfolding random_bird_loop
loop_free zero i r taken h free = absurd (omega arith)
loop_free (suc n) zero r taken h free = rw (free, random_bird_loop) free
loop_free (suc n) (suc i) r taken h free = elim (Bool-cases (taken (roll r).0)) [
  | inr first ↦ rw (first, random_bird_loop) first
  | inl hit ↦ rw (hit, random_bird_loop) (loop_free n i (roll r).1 taken (omega arith) free)
]

-- `RandomBird` returns a bird with a palette and an accessory that exist, whatever is taken; and
-- one that is not taken, if any of the generator's first 32 candidates is not.
pub random_bird_lem :
    (r : Rng) (taken : Bird → Bool)
    → (valid (random_bird r taken).0 ≡ true)
      × ((i : ℕ) → i < 32 → taken (candidate i r) ≡ false → taken (random_bird r taken).0 ≡ false)
unfolding random_bird
random_bird_lem r taken = (loop_valid 32 r taken, λ i h free. loop_free 32 i r taken h free)
