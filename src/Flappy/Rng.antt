-- ===== src/Flappy/Rng.antt =====
-- internal/game/rng.go: the splitmix64 generator.
use Prim.Native.Nat.{bit_xor}
use hmlb.Prelude.{ℕ, ◌+◌, ◌*◌, ◌/◌, ◌^◌}
use hmlb.Prelude.Int.{pos}
use hmlb.Prelude.Words.{u64}
use hmlb.Flappy.Float.{Float}

pub record Rng : Type 0 where
  pub state : ℕ

pub new_rng : ℕ → Rng
new_rng seed = record { state = seed }

abbrev mix : ℕ → ℕ → ℕ → ℕ
mix z shift factor = u64 (bit_xor z (z / 2 ^ shift) * factor)

-- `Next`: the raw value, and the generator that follows.
unfoldable pub next : Rng → ℕ × Rng
unfolding u64
next r =
    let state = u64 (r.state + 0x9E3779B97F4A7C15) in
    let z = mix (mix state 30 0xBF58476D1CE4E5B9) 27 0x94D049BB133111EB in
    (bit_xor z (z / 2 ^ 31), record { state = state })

module _ {A : Type 0} ⦃f : Float A⦄ where
  -- `Float`: the top 53 bits over 2^53.
  unfoldable pub next_float : Rng → A × Rng
  next_float r =
      let (raw, r') = next r in (f.div (f.lit (pos (raw / 2 ^ 11)) 0) (f.lit (pos (2 ^ 53)) 0), r')

  unfoldable pub range : A → A → Rng → A × Rng
  unfolding next_float
  range lo hi r = let (u, r') = next_float r in (f.add lo (f.mul (f.sub hi lo) u), r')
