-- ===== src/Flappy/World/Survival.antt =====
-- Who is alive after a tick has hit nothing.
use mathlib.Core.Option
use hmlb.Prelude.{◌≡◌, false, List, Option, nat_eq, any}
use hmlb.Flappy.Const
use hmlb.Flappy.Float.{Float}
use hmlb.Flappy.World.Defs.{Pipe, World}
use hmlb.Flappy.World.Step.{hits_pipe}

module _ {A : Type 0} ⦃f : Float A⦄ where
  -- In the air, above the ground, below the ceiling and clear of the pipes.
  abbrev pub IsClear : A → List (Pipe A) → Type 0
  IsClear y pipes =
      (f.lt y Const.ceiling_y ≡ false)
      × (f.le Const.ground_y (f.add y Const.bird_radius) ≡ false)
      × (any (hits_pipe y) pipes ≡ false)
