-- ===== src/Flappy/Client/Hud.antt =====
-- internal/client/hud.go: what the overlay shows. Times are milliseconds.
pub mod Layout
use hmlb.Prelude.{
  ℕ, zero, suc, ◌+◌, ◌-◌, ◌/◌, ◌%◌, ◌≤◌, ◌≡◌, refl, Bool, true, false, not, ltb, leb, arith, inl,
  inr, Bool-cases, if◌then◌else◌, List, [], ◌∷◌, Text, take, nat_beq, ◌>>=◌, Option, none, some,
  map,
}
use mathlib.Core.List.{Perm}
use hmlb.Prelude.Sort.{IsOrder, IsSorted, sort_stable, sort_stable-perm, sort_stable-IsSorted}
use hmlb.Flappy.Const.{max_leaderboard_rows}
use hmlb.Flappy.Wire.{
  RaceState, waiting, countdown, racing, finished, Snapshot, BirdSnap, ResultSnap,
}

pub record HudRow : Type 0 where
  pub id : ℕ
  pub name : Text
  pub score : ℕ
  pub alive : Bool
  pub left : Bool
  pub self : Bool
  pub rank : ℕ

pub record Hud : Type 0 where
  pub countdown : Text
  pub go : Bool
  pub own_score : ℕ
  pub rows : List HudRow
  pub waiting : ℕ
  pub dead : Bool
  pub spect : Bool
  pub results : List ResultSnap

-- The loop of `itoa`: digits are written from the end of a buffer of that many bytes; `none` is the
-- index out of range that a longer number gives.
unfoldable pub itoa_loop : ℕ → ℕ → Text → Option Text
itoa_loop space zero acc = some acc
itoa_loop zero (suc n) acc = none
itoa_loop (suc space) (suc n) acc = itoa_loop space (suc n / 10) ((48 + suc n % 10) ∷ acc)

-- `itoa` of a number that is not negative, as all its calls are.
unfoldable pub itoa : ℕ → Option Text
unfolding itoa_loop
itoa n = if leb n 9 then some ((48 + n) ∷ []) else itoa_loop 8 n []

unfoldable pub clamp_int : ℕ → ℕ → ℕ → ℕ
clamp_int v lo hi = if ltb v lo then lo else if ltb hi v then hi else v

-- The countdown's number and the GO flag.
unfoldable pub clock_face : RaceState → ℕ → ℕ → Option (Text × Bool)
unfolding itoa clamp_int
clock_face waiting go_at now = some ([], false)
clock_face countdown go_at now = elim (ltb now go_at) [
  | true ↦ do s ← itoa (clamp_int ((go_at - now + 999) / 1000) 1 3); some (s, false)
  | false ↦ some ([], true)
]
clock_face racing go_at now = some ([], ltb now (go_at + 700))
clock_face finished go_at now = some ([], false)

module _ {A : Type 0} where
  -- The own bird: its score, whether it is dead, whether there is none. The last match counts.
  unfoldable pub own_bird : ℕ → List (BirdSnap A) → ℕ × Bool × Bool → ℕ × Bool × Bool
  own_bird self [] own = own
  own_bird self (b ∷ bs) own =
      own_bird self bs (if nat_beq b.id self then (b.score, b.dead, false) else own)

  unfoldable pub hud_row : ℕ → BirdSnap A → HudRow
  hud_row self b = record {
    id = b.id;
    name = b.name;
    score = b.score;
    alive = not b.dead;
    left = b.left;
    self = nat_beq b.id self;
    rank = 0;
  }

abbrev same : Bool → Bool → Bool
same true b = b
same false b = not b

unfoldable pub hud_less : HudRow → HudRow → Bool
hud_less a b =
    if not (same a.alive b.alive)
    then a.alive
    else if not (nat_beq a.score b.score)
    then ltb b.score a.score
    else ltb a.id b.id

unfoldable pub ranked_from : ℕ → List HudRow → List HudRow
ranked_from n [] = []
ranked_from n (r ∷ rs) = record r { rank = n } ∷ ranked_from (n + 1) rs

module _ {A : Type 0} where
  unfoldable pub derive_hud : Snapshot A → ℕ → ℕ → Option Hud
  unfolding clock_face own_bird hud_row hud_less ranked_from
  derive_hud snap now self = do
    (number, go) ← clock_face snap.st snap.go_at now
    let (score, dead, spect) = own_bird self snap.birds (0, false, true)
    let rows = ranked_from 1 (sort_stable hud_less (map (hud_row self) snap.birds))
    some (record {
      countdown = number;
      go = go;
      own_score = score;
      rows = take max_leaderboard_rows rows;
      waiting = snap.wait;
      dead = dead;
      spect = spect;
      results = snap.res;
    })
