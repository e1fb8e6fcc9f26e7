-- ===== src/Flappy/Client/Backoff.antt =====
-- internal/client/backoff.go: the pause before the next attempt, in milliseconds.
use hmlb.Prelude.{
  ℕ, zero, suc, ◌-◌, ◌*◌, ◌≤◌, ◌<◌, ◌≡◌, leb, arith, inl, inr, Bool-cases, if◌then◌else◌,
}

abbrev pub retry_base_delay : ℕ
retry_base_delay = 500

abbrev pub retry_max_delay : ℕ
retry_max_delay = 8000

-- The loop: that many doublings, or fewer.
unfoldable pub doubled : ℕ → ℕ → ℕ
doubled zero d = d
doubled (suc n) d =
    let more = doubled n (d * 2) in if leb retry_max_delay (d * 2) then retry_max_delay else more

-- `range` over a negative number runs no round, as over 0.
unfoldable pub retry_delay : ℕ → ℕ
unfolding doubled
retry_delay attempts = doubled (attempts - 1) retry_base_delay

-- That many doublings, however large the result.
abbrev pub doublings : ℕ → ℕ → ℕ
doublings zero d = d
doublings (suc n) d = doublings n (d * 2)

doublings_grow : (n d : ℕ) → d ≤ doublings n d
doublings_grow zero d = omega arith
doublings_grow (suc n) d = omega (arith, doublings_grow n (d * 2))

abbrev pub capped : ℕ → ℕ
capped d = if leb retry_max_delay d then retry_max_delay else d

doubled-capped : (n d : ℕ) → d < retry_max_delay → doubled n d ≡ capped (doublings n d)
unfolding doubled
doubled-capped zero d h = ground arith
doubled-capped (suc n) d h = elim (Bool-cases (leb retry_max_delay (d * 2))) [
  | inl over ↦ rw (over, doubled) (ground (arith, doublings_grow n (d * 2)))
  | inr under ↦ rw (under, doubled) (doubled-capped n (d * 2) (ground arith))
]

-- The pause is the base delay doubled once for each failure after the first, capped at the greatest
-- delay.
pub retry_delay_lem :
    (attempts : ℕ)
    → (retry_delay attempts ≡ capped (doublings (attempts - 1) retry_base_delay))
      × (retry_delay attempts ≤ retry_max_delay)
unfolding retry_delay
retry_delay_lem attempts =
    let e = doubled-capped (attempts - 1) retry_base_delay (omega arith) in (e, ground (arith, e))
