-- ===== src/Flappy/Const.antt =====
-- internal/protocol/const.go: the tuning constants that both sides share. Float constants are literals
-- of the float type in use; a sum of two constants is computed exactly by the Go compiler.
use hmlb.Prelude.{ℕ, ◌*◌}
use hmlb.Prelude.Int.{pos, negsuc}
use hmlb.Flappy.Float.{Float}

abbrev pub tick_hz : ℕ
tick_hz = 60

abbrev pub view_max_w : ℕ
view_max_w = 3200

abbrev pub flap_anim_ticks : ℕ
flap_anim_ticks = 12

abbrev pub ramp_every_ticks : ℕ
ramp_every_ticks = 900

abbrev pub max_race_ticks : ℕ
max_race_ticks = 120 * tick_hz

abbrev pub default_snapshot_hz : ℕ
default_snapshot_hz = 30

abbrev pub interp_delay_ms : ℕ
interp_delay_ms = 90

abbrev pub snap_gap_ms : ℕ
snap_gap_ms = 150

abbrev pub ring_len : ℕ
ring_len = 8

abbrev pub default_max_players : ℕ
default_max_players = 64

abbrev pub max_name_len : ℕ
max_name_len = 16

abbrev pub flap_rate_limit : ℕ
flap_rate_limit = 20

abbrev pub max_top_entries : ℕ
max_top_entries = 50

abbrev pub max_leaderboard_rows : ℕ
max_leaderboard_rows = 8

module _ {A : Type 0} ⦃f : Float A⦄ where
  abbrev pub gravity : A
  gravity = f.lit (pos 42) 2

  abbrev pub flap_impulse : A
  flap_impulse = f.lit (negsuc 71) 1

  abbrev pub terminal_vel : A
  terminal_vel = f.lit (pos 8) 0

  abbrev pub bird_x : A
  bird_x = f.lit (pos 120) 0

  abbrev pub bird_radius : A
  bird_radius = f.lit (pos 11) 0

  -- BirdX + BirdRadius and BirdX - BirdRadius
  abbrev pub bird_right : A
  bird_right = f.lit (pos 131) 0

  abbrev pub bird_left : A
  bird_left = f.lit (pos 109) 0

  abbrev pub pipe_width : A
  pipe_width = f.lit (pos 80) 0

  -- -PipeWidth: a pipe that has left the screen
  abbrev pub drop_x : A
  drop_x = f.lit (negsuc 79) 0

  abbrev pub pipe_gap : A
  pipe_gap = f.lit (pos 156) 0

  abbrev pub pipe_spacing : A
  pipe_spacing = f.lit (pos 260) 0

  -- ViewMaxW + PipeSpacing, where spawning stops, and ViewMaxW + 2 PipeSpacing, where sending does
  abbrev pub spawn_until : A
  spawn_until = f.lit (pos 3460) 0

  abbrev pub visible_until : A
  visible_until = f.lit (pos 3720) 0

  abbrev pub scroll_speed : A
  scroll_speed = f.lit (pos 31) 1

  abbrev pub first_pipe_x : A
  first_pipe_x = f.lit (pos 440) 0

  abbrev pub gap_y_min : A
  gap_y_min = f.lit (pos 168) 0

  abbrev pub gap_y_max : A
  gap_y_max = f.lit (pos 552) 0

  abbrev pub max_gap_delta : A
  max_gap_delta = f.lit (pos 240) 0

  abbrev pub ground_y : A
  ground_y = f.lit (pos 720) 0

  abbrev pub ceiling_y : A
  ceiling_y = f.lit (pos 11) 0

  abbrev pub spawn_y : A
  spawn_y = f.lit (pos 400) 0

  abbrev pub ramp_speed_mult : A
  ramp_speed_mult = f.lit (pos 10625) 4

  abbrev pub ramp_speed_cap : A
  ramp_speed_cap = f.lit (pos 465) 2

  abbrev pub ramp_gap_shrink : A
  ramp_gap_shrink = f.lit (pos 2) 0

  abbrev pub ramp_gap_floor : A
  ramp_gap_floor = f.lit (pos 144) 0
