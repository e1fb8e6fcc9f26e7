-- ===== src/Flappy/World/Step.antt =====
-- internal/game/world.go, `Step` and what it calls: one tick of the simulation.
use hmlb.Prelude.{
  ℕ, zero, suc, ◌+◌, ◌%◌, Bool, true, false, ◌&&◌, ◌||◌, List, [], ◌∷◌, ◌++◌, map, Option, none,
  some, nat_beq, if◌then◌else◌, nat_eq, ◌>>=◌, last?, keep, any,
}
use hmlb.Prelude.Int.{pos}
use hmlb.Prelude.Maps.{Map, has_key}
use hmlb.Prelude.Loops.{update_each}
use hmlb.Prelude.Words.{u64}
use hmlb.Flappy.Const
use hmlb.Flappy.Float.{Float}
use hmlb.Flappy.Rng.{range}
use hmlb.Flappy.World.Defs.{BirdState, Pipe, World}

-- The pipes that one tick may spawn; `spawn_pipes_total` shows that they are enough.
abbrev pub spawn_fuel : ℕ
spawn_fuel = 16

module _ {A : Type 0} ⦃f : Float A⦄ where
  unfoldable pub clamp : A → A → A → A
  clamp v lo hi = if f.lt v lo then lo else if f.lt hi v then hi else v

  unfoldable pub circle_rect : A → A → A → A → A → A → A → Bool
  circle_rect cx cy r x0 y0 x1 y1 =
      let dx = f.sub cx (clamp cx x0 x1) in
      let dy = f.sub cy (clamp cy y0 y1) in f.lt (f.add (f.mul dx dx) (f.mul dy dy)) (f.mul r r)

  unfoldable pub spawn_pipe : A → World A → World A
  spawn_pipe x w =
      let (g₀, rng) = range Const.gap_y_min Const.gap_y_max w.rng in
      let g₁ =
        clamp g₀ (f.sub w.last_gap_y Const.max_gap_delta)
          (f.add w.last_gap_y Const.max_gap_delta) in
      let g = clamp g₁ Const.gap_y_min Const.gap_y_max in
      let id = u64 (w.next_pipe_id + 1) in
      record w {
        rng = rng;
        last_gap_y = g;
        next_pipe_id = id;
        pipes = w.pipes ++ record { id = id; x = x; gap_y = g; gap_h = w.gap } ∷ [];
      }

  unfoldable pub next_x : List (Pipe A) → A
  next_x ps = elim (last? ps) [ none ↦ Const.first_pipe_x | some p ↦ f.add p.x Const.pipe_spacing ]

  -- The `for` that spawns pipes up to the edge of the widest view.
  unfoldable pub spawn_pipes : ℕ → World A → Option (World A)
  spawn_pipes zero w = none
  spawn_pipes (suc fuel) w = elim (f.le Const.spawn_until (next_x w.pipes)) [
    | true ↦ some w
    | false ↦ spawn_pipes fuel (spawn_pipe (next_x w.pipes) w)
  ]

  unfoldable pub ramp : World A → World A
  ramp w =
      if nat_beq (w.tick % Const.ramp_every_ticks) 0
      then record w {
        scroll = f.fmin (f.mul w.scroll Const.ramp_speed_mult) Const.ramp_speed_cap;
        gap = f.fmax (f.sub w.gap Const.ramp_gap_shrink) Const.ramp_gap_floor;
      }
      else w

  abbrev pub flapped : ℕ → Bool → BirdState A → BirdState A
  flapped tick true b = record b { vy = Const.flap_impulse; last_flap = tick }
  flapped tick false b = b

  abbrev pub fall : BirdState A → BirdState A
  fall b =
      let vy = f.fmin (f.add b.vy Const.gravity) Const.terminal_vel in
      record b { vy = vy; y = f.add b.y vy }

  abbrev pub under_ceiling : BirdState A → BirdState A
  under_ceiling b =
      if f.lt b.y Const.ceiling_y
      then record b {
        y = Const.ceiling_y;
        vy = if f.lt b.vy (f.lit (pos 0) 0) then f.lit (pos 0) 0 else b.vy;
      }
      else b

  -- Phase 1 for one bird: the flap's impulse, gravity, the ceiling.
  unfoldable pub fly : ℕ → Map ℕ (Unit {0}) → ℕ → BirdState A → BirdState A
  fly tick flaps id b =
      if b.dead then b else under_ceiling (fall (flapped tick (has_key id flaps) b))

  abbrev pub shifted : A → Pipe A → Pipe A
  shifted scroll p = record p { x = f.sub p.x scroll }

  -- Phase 2 up to the spawning: everything moves left, what has passed is dropped.
  unfoldable pub scroll_world : World A → World A
  scroll_world w = record w {
    pipes = keep (λ p. f.lt Const.drop_x p.x) (map (shifted w.scroll) w.pipes);
    dist = f.add w.dist w.scroll;
  }

  unfoldable pub kill : ℕ → BirdState A → BirdState A
  kill tick b = record b { dead = true; death_tick = tick }

  unfoldable pub hits_pipe : A → Pipe A → Bool
  hits_pipe y p =
      if f.lt Const.bird_right p.x || f.lt (f.add p.x Const.pipe_width) Const.bird_left
      then false
      else let half = f.div p.gap_h (f.lit (pos 2) 0) in
        let right = f.add p.x Const.pipe_width in
        circle_rect Const.bird_x y Const.bird_radius p.x (f.lit (pos 0) 0) right
          (f.sub p.gap_y half)
        || circle_rect Const.bird_x y Const.bird_radius p.x (f.add p.gap_y half) right
            Const.ground_y

  abbrev pub passed : BirdState A → Pipe A → Bool
  passed b p = nat_beq p.id b.next_pipe_id && f.lt (f.add p.x Const.pipe_width) Const.bird_left

  unfoldable pub score_pipes : List (Pipe A) → BirdState A → BirdState A
  score_pipes [] b = b
  score_pipes (p ∷ ps) b = score_pipes ps (
      if passed b p
      then record b { score = b.score + 1; next_pipe_id = u64 (b.next_pipe_id + 1) }
      else b)

  -- Phase 3 for one bird: the ground, the pipes, the score of a survivor.
  unfoldable pub land : ℕ → List (Pipe A) → ℕ → BirdState A → BirdState A
  land tick pipes id b =
      if b.dead
      then b
      else if f.le Const.ground_y (f.add b.y Const.bird_radius)
      then kill tick b
      else if any (hits_pipe b.y) pipes
      then kill tick b
      else score_pipes pipes b

  abbrev pub advanced : World A → World A
  advanced w = ramp (record w { tick = u64 (w.tick + 1) })

  unfoldable pub step : Map ℕ (Unit {0}) → World A → Option (World A)
  step flaps w = do
    let w₁ = advanced w
    flown ← update_each (fly w₁.tick flaps) w₁.order w₁.birds
    w₂ ← spawn_pipes spawn_fuel (scroll_world (record w₁ { birds = flown }))
    landed ← update_each (land w₂.tick w₂.pipes) w₂.order w₂.birds
    some (record w₂ { birds = landed })
