-- ===== src/Flappy/Examples/Client.antt =====
-- The theorems of the client on concrete inputs.
use mathlib.Core.List.{Perm}
use hmlb.Prelude.{
  ℕ, zero, suc, ◌<◌, ◌≤◌, ◌≡◌, refl, Bool, true, false, List, [], ◌∷◌, ◌++◌, some, none, text,
  arith, take, map, leb,
}
use hmlb.Prelude.Int.{ℤ, pos, ◌-ℤ◌, ◌+ℤ◌, ◌*ℤ◌}
use hmlb.Prelude.All.{All}
use hmlb.Prelude.Sort.{IsOrdered}
use hmlb.Flappy.Const.{max_leaderboard_rows}
use hmlb.Flappy.Fixed.{fixed}
use hmlb.Flappy.Wire.{racing, Snapshot, BirdSnap}
use hmlb.Flappy.Client.Clock.{Clock, IsRejected}
use hmlb.Flappy.Client.Game.{Game, Input, no_sess, new_game, update, lost}
use hmlb.Flappy.Client.Game.Retry.{IsSingle, update-IsSingle}
use hmlb.Flappy.Client.Hud.{Hud, HudRow, hud_row, derive_hud}
use hmlb.Flappy.Client.Hud.Layout.{
  IsClock, own_of, standing, plain_row, unranked, IsHigher, ranks_from, derive_hud_total,
}
use hmlb.Flappy.Client.Ring.{bracket_from, first}
use hmlb.Flappy.Client.Ring.Bracket.{bracket_from-around}

abbrev printable : ℕ → Bool
printable c = leb 32 c

abbrev a_bird : BirdSnap ℤ
a_bird = record {
  id = 1;
  name = text "ann";
  y = pos 4000000;
  vy = pos 0;
  score = 3;
  dead = false;
  left = false;
  flap = false;
  pal = 0;
  acc = 0;
}

abbrev snap_at : ℕ → Snapshot ℤ
snap_at now = record {
  now = now;
  tick = 1;
  st = racing;
  go_at = 50;
  theme = 0;
  seed = 7;
  dist = pos 0;
  wait = 0;
  birds = a_bird ∷ [];
  pipes = [];
  res = [];
}

abbrev a_game : Game ℤ
a_game = record (new_game (text "ann")) { connected = true; ring = snap_at 100 ∷ [] }

abbrev an_input : Input ℤ
an_input = record {
  chars = [];
  backspace = false;
  enter = false;
  snaps = snap_at 133 ∷ [];
  err = some lost;
  flap = true;
  dial = none;
  local = pos 140;
  now = 140;
}

-- An estimate of no offset, and a sample that is a second off.
abbrev a_clock : Clock ℤ
a_clock = record { offset = pos 0; have = true; jumps = 0 }

abbrev a_jump : ℤ × ℤ
a_jump = (pos 1000, pos 0)

abbrev jumps_of : ℕ → List (ℤ × ℤ)
jumps_of zero = []
jumps_of (suc n) = a_jump ∷ jumps_of n

bracket_from-around_example :
    (before after : List (Snapshot ℤ)) × (snap_at 100 ∷ snap_at 133 ∷ []
      ≡ before ++ (bracket_from 110 (snap_at 100) none (snap_at 100 ∷ snap_at 133 ∷ [])).0 ∷ after)
    × All
        (λ (x : Snapshot ℤ). x.now ≤ 110)
        (before ++ (bracket_from 110 (snap_at 100) none (snap_at 100 ∷ snap_at 133 ∷ [])).0 ∷ [])
    × All (λ (x : Snapshot ℤ). 110 < x.now) after
    × ((bracket_from 110 (snap_at 100) none (snap_at 100 ∷ snap_at 133 ∷ [])).1 ≡ first after)
bracket_from-around_example =
    bracket_from-around 110 (snap_at 100) (snap_at 133 ∷ []) (omega arith, tt) (omega arith)

update-IsSingle_example : IsSingle (update printable no_sess an_input a_game).0
unfolding new_game
update-IsSingle_example = update-IsSingle printable no_sess an_input a_game refl

All-IsRejected : (n : ℕ) → All (IsRejected (pos 0)) (jumps_of n)
unfolding fixed ◌-ℤ◌ ◌+ℤ◌ ◌*ℤ◌
All-IsRejected zero = tt
All-IsRejected (suc n) = (refl, All-IsRejected n)

derive_hud_total_example :
    (hud : Hud) × (sorted : List HudRow) × (derive_hud (snap_at 100) 120 1 ≡ some hud)
    × IsClock (snap_at 100).st (snap_at 100).go_at 120 (hud.countdown, hud.go)
    × ((hud.own_score, hud.dead, hud.spect) ≡ standing (own_of 1 (snap_at 100).birds))
    × (hud.results ≡ (snap_at 100).res)
    × (hud.waiting ≡ (snap_at 100).wait)
    × Perm sorted (map (hud_row 1) (snap_at 100).birds)
    × (map unranked (map (hud_row 1) (snap_at 100).birds) ≡ map (plain_row 1) (snap_at 100).birds)
    × IsOrdered IsHigher sorted
    × (map unranked hud.rows ≡ take max_leaderboard_rows (map unranked sorted))
    × (map (λ (r : HudRow). r.rank) hud.rows ≡ ranks_from 1 (take max_leaderboard_rows sorted))
derive_hud_total_example = derive_hud_total (snap_at 100) 120 1
