-- ===== src/Flappy/World/Defs.antt =====
-- internal/game/world.go: the state of a race, who flies in it, and what is sent of it.
use hmlb.Prelude.{
  ℕ, ◌+◌, Bool, true, false, ◌&&◌, not, List, [], ◌∷◌, ◌++◌, Option, none, some, Text, ltb, nat_beq,
  if◌then◌else◌, nat_eq, ◌>>=◌, length,
}
use hmlb.Prelude.Maps.{Map, lookup, insert, delete, has_key}
use hmlb.Prelude.Removal.{remove_first}
use hmlb.Prelude.Words.{sub64}
use hmlb.Prelude.Int.{pos}
use hmlb.Flappy.Const.{spawn_y, scroll_speed, pipe_gap, drop_x, visible_until, flap_anim_ticks}
use hmlb.Flappy.Float.{Float}
use hmlb.Flappy.Rng.{Rng, new_rng}
use hmlb.Flappy.Wire.{BirdSnap, PipeSnap}

pub record BirdState (A : Type 0) : Type 0 where
  pub id : ℕ
  pub name : Text
  pub pal : ℕ
  pub acc : ℕ
  pub y : A
  pub vy : A
  pub score : ℕ
  pub dead : Bool
  pub death_tick : ℕ
  pub left : Bool
  pub last_flap : ℕ
  pub next_pipe_id : ℕ

pub record Pipe (A : Type 0) : Type 0 where
  pub id : ℕ
  pub x : A
  pub gap_y : A
  pub gap_h : A

pub record World (A : Type 0) : Type 0 where
  pub tick : ℕ
  pub scroll : A
  pub gap : A
  pub dist : A
  pub pipes : List (Pipe A)
  pub order : List ℕ
  pub birds : Map ℕ (BirdState A)
  pub rng : Rng
  pub next_pipe_id : ℕ
  pub last_gap_y : A

module _ {A : Type 0} ⦃f : Float A⦄ where
  unfoldable pub new_world : ℕ → World A
  new_world seed = record {
    tick = 0;
    scroll = scroll_speed;
    gap = pipe_gap;
    dist = f.lit (pos 0) 0;
    pipes = [];
    order = [];
    birds = [];
    rng = new_rng seed;
    next_pipe_id = 0;
    last_gap_y = spawn_y;
  }

  unfoldable pub new_bird : ℕ → Text → ℕ → ℕ → BirdState A
  new_bird id name pal acc = record {
    id = id;
    name = name;
    pal = pal;
    acc = acc;
    y = spawn_y;
    vy = f.lit (pos 0) 0;
    score = 0;
    dead = false;
    death_tick = 0;
    left = false;
    last_flap = 0;
    next_pipe_id = 1;
  }

  unfoldable pub add_bird : ℕ → Text → ℕ → ℕ → World A → World A
  add_bird id name pal acc w = if has_key id w.birds then w else record w {
    birds = insert id (new_bird id name pal acc) w.birds;
    order = w.order ++ id ∷ [];
  }

module _ {A : Type 0} where
  unfoldable pub remove_bird : ℕ → World A → World A
  remove_bird id w =
      if has_key id w.birds
      then record w { birds = delete id w.birds; order = remove_first id w.order }
      else w

  abbrev pub killed_left : ℕ → BirdState A → BirdState A
  killed_left tick b = record b { dead = true; left = true; death_tick = tick }

  unfoldable pub kill_left : ℕ → World A → World A
  kill_left id w = elim (lookup id w.birds) [
    | none ↦ w
    | some b ↦ if b.dead then w else record w { birds = insert id (killed_left w.tick b) w.birds }
  ]

  unfoldable pub alive_in : Map ℕ (BirdState A) → ℕ
  alive_in [] = 0
  alive_in ((k, b) ∷ m) = (if b.dead then 0 else 1) + alive_in m

  unfoldable pub alive : World A → ℕ
  alive w = alive_in w.birds

  unfoldable pub racer_count : World A → ℕ
  racer_count w = length w.birds

  unfoldable pub is_racer : ℕ → World A → Bool
  is_racer id w = has_key id w.birds

module _ {A : Type 0} ⦃f : Float A⦄ where
  unfoldable pub round2 : A → A
  round2 v =
      f.div (f.lit (f.to_int (f.add (f.mul v (f.lit (pos 100) 0)) (f.lit (pos 5) 1))) 0)
        (f.lit (pos 100) 0)

  -- A flap shows for some ticks; the difference of ticks is of uint64.
  unfoldable pub bird_snap : ℕ → BirdState A → BirdSnap A
  bird_snap tick b = record {
    id = b.id;
    name = b.name;
    y = round2 b.y;
    vy = round2 b.vy;
    score = b.score;
    dead = b.dead;
    left = b.left;
    flap = not (nat_beq b.last_flap 0) && ltb (sub64 tick b.last_flap) flap_anim_ticks;
    pal = b.pal;
    acc = b.acc;
  }

  unfoldable pub bird_snaps_of : ℕ → List ℕ → Map ℕ (BirdState A) → Option (List (BirdSnap A))
  bird_snaps_of tick [] m = some []
  bird_snaps_of tick (id ∷ ids) m = do
    b ← lookup id m
    snaps ← bird_snaps_of tick ids m
    some (bird_snap tick b ∷ snaps)

  unfoldable pub bird_snaps : World A → Option (List (BirdSnap A))
  bird_snaps w = bird_snaps_of w.tick w.order w.birds

  abbrev pipe_snap : Pipe A → PipeSnap A
  pipe_snap p = record { id = p.id; x = round2 p.x; g = round2 p.gap_y; h = round2 p.gap_h }

  unfoldable pub pipe_snaps_of : List (Pipe A) → List (PipeSnap A)
  pipe_snaps_of [] = []
  pipe_snaps_of (p ∷ ps) =
      let rest = pipe_snaps_of ps in
      if f.le p.x drop_x then rest else if f.le visible_until p.x then [] else pipe_snap p ∷ rest

  unfoldable pub pipe_snaps : World A → List (PipeSnap A)
  pipe_snaps w = pipe_snaps_of w.pipes
