-- ===== src/Flappy/Birds.antt =====
-- internal/protocol/birddef.go: a player's appearance.
pub mod Rolls
use hmlb.Prelude.{
  ℕ, zero, suc, ◌%◌, ◌≡◌, Bool, true, false, ◌&&◌, ltb, nat_beq, nat_beq_iff, arith, Eq, ◌↔◌,
}
use hmlb.Flappy.Rng.{Rng, next}

pub record Bird : Type 0 where
  pub palette : ℕ
  pub accessory : ℕ

abbrev pub palette_count : ℕ
palette_count = 12

abbrev pub accessory_count : ℕ
accessory_count = 4

abbrev pub bird_beq : Bird → Bird → Bool
bird_beq a b = nat_beq a.palette b.palette && nat_beq a.accessory b.accessory

pub bird_beq_iff : (a b : Bird) → (bird_beq a b ≡ true) ↔ (a ≡ b)
bird_beq_iff a b =
    ground (arith, nat_beq_iff a.palette b.palette, nat_beq_iff a.accessory b.accessory)

instance abbrev pub bird_eq : Eq Bird
bird_eq = record { beq = bird_beq; beq_iff = bird_beq_iff }

-- The zero value, which a map gives for a missing entry.
abbrev pub no_bird : Bird
no_bird = record { palette = 0; accessory = 0 }

unfoldable pub valid : Bird → Bool
valid b = ltb b.palette palette_count && ltb b.accessory accessory_count

unfoldable pub roll : Rng → Bird × Rng
roll r =
    let (p, r') = next r in
    let (a, r'') = next r' in
    (record { palette = p % palette_count; accessory = a % accessory_count }, r'')

-- `RandomBird`'s loop: up to that many candidates, then one that may be taken.
unfoldable pub random_bird_loop : ℕ → Rng → (Bird → Bool) → Bird × Rng
random_bird_loop zero r taken = roll r
random_bird_loop (suc n) r taken =
    let (b, r') = roll r in elim (taken b) [ true ↦ random_bird_loop n r' taken | false ↦ (b, r') ]

unfoldable pub random_bird : Rng → (Bird → Bool) → Bird × Rng
unfolding random_bird_loop
random_bird r taken = random_bird_loop 32 r taken
