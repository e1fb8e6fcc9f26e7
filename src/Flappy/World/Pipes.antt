-- ===== src/Flappy/World/Pipes.antt =====
-- The pipes of a race: where their gaps are, and their numbers.
use mathlib.Core.Path.{subst}
use hmlb.Prelude.{
  ℕ, zero, suc, ◌≡◌, refl, true, false, List, [], ◌∷◌, some, arith, inl, inr, Bool-cases, keep, map,
}
use hmlb.Prelude.All.{All, All-append}
use hmlb.Prelude.Int.{pos}
use hmlb.Prelude.Maps.{Map}
use hmlb.Flappy.Const
use hmlb.Flappy.Float.{Float, FloatLaws}
use hmlb.Flappy.World.Defs.{Pipe, World}
use hmlb.Flappy.World.Step.{
  clamp, shifted, scroll_world, spawn_pipe, spawn_pipes, spawn_fuel, next_x, advanced, ramp, step,
}
use hmlb.Flappy.World.Total.{IsWorld, step_total}

module _ {A : Type 0} ⦃f : Float A⦄ where
  -- A gap's centre is neither above the highest nor below the lowest place for it.
  abbrev pub IsGap : Pipe A → Type 0
  IsGap p = (f.lt p.gap_y Const.gap_y_min ≡ false) × (f.lt Const.gap_y_max p.gap_y ≡ false)

  clamp_within :
      FloatLaws f
      → (v lo hi : A) → f.lt lo hi ≡ true
      → (f.lt (clamp v lo hi) lo ≡ false) × (f.lt hi (clamp v lo hi) ≡ false)
  unfolding clamp
  clamp_within laws v lo hi h = elim (Bool-cases (f.lt v lo)) [
    | inl low ↦ rw (low, clamp) (laws.lt_irrefl lo, laws.lt_asym lo hi h)
    | inr above ↦ elim (Bool-cases (f.lt hi v)) [
      | inl high ↦ rw (above, clamp, high) (laws.lt_asym lo hi h, laws.lt_irrefl hi)
      | inr within ↦ rw (above, clamp, within) (above, within)
    ]
  ]

  spawn_pipe-IsGap :
      FloatLaws f → (x : A) (w : World A) → All IsGap w.pipes → All IsGap (spawn_pipe x w).pipes
  unfolding spawn_pipe
  spawn_pipe-IsGap laws x w all = All-append IsGap w.pipes _ all (
    clamp_within laws _ Const.gap_y_min Const.gap_y_max
        (laws.lit_lt (pos 168) (pos 552) (omega arith) (omega arith) refl),
    tt,
  )

  spawn_pipes-IsGap :
      FloatLaws f
      → (fuel : ℕ) (w v : World A) → spawn_pipes fuel w ≡ some v
      → All IsGap w.pipes
      → All IsGap v.pipes
  unfolding spawn_pipes
  spawn_pipes-IsGap laws zero w v runs all = cc
  spawn_pipes-IsGap laws (suc fuel) w v runs all =
      elim (Bool-cases (f.le Const.spawn_until (next_x w.pipes))) [
        | inl stop ↦
            let same : w ≡ v = injective (rw (stop, spawn_pipes) at runs) in
            subst (λ (u : World A). All IsGap u.pipes) same all
        | inr more ↦
            spawn_pipes-IsGap laws fuel (spawn_pipe (next_x w.pipes) w) v
              (rw (more, spawn_pipes) at runs) (spawn_pipe-IsGap laws (next_x w.pipes) w all)
      ]
    where
      injective : {x y : World A} → some x ≡ some y → x ≡ y
      injective h = cc

  kept-IsGap :
      (scroll : A) (ps : List (Pipe A))
      → All IsGap ps
      → All IsGap (keep (λ p. f.lt Const.drop_x p.x) (map (shifted scroll) ps))
  kept-IsGap scroll [] all = tt
  kept-IsGap scroll (p ∷ ps) all = elim (Bool-cases (f.lt Const.drop_x (f.sub p.x scroll))) [
    | inl kept ↦ rw kept (all.0, kept-IsGap scroll ps all.1)
    | inr gone ↦ rw gone (kept-IsGap scroll ps all.1)
  ]

  advanced_pipes : (w : World A) → (advanced w).pipes ≡ w.pipes
  unfolding ramp
  advanced_pipes w = ground arith

  -- With the float laws, a tick of a well-formed world keeps every gap where gaps may be, those of
  -- the pipes it spawns included.
  pub step-IsGap :
      FloatLaws f
      → (flaps : Map ℕ (Unit {0})) (w : World A) → IsWorld w
      → All IsGap w.pipes
      → (v : World A) × (step flaps w ≡ some v) × All IsGap v.pipes
  unfolding scroll_world
  step-IsGap laws flaps w ok all =
      let (v, runs, _, _, _, (u, spawns, same)) = step_total laws flaps w ok in
      (
        v,
        runs,
        rw same (
            spawn_pipes-IsGap laws spawn_fuel _ u spawns
              (kept-IsGap (advanced w).scroll (advanced w).pipes (rw (advanced_pipes w) all))),
      )
