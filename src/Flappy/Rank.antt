-- ===== src/Flappy/Rank.antt =====
-- internal/game/rank.go: the podium of a finished race.
pub mod Podium
use hmlb.Prelude.{
  ℕ, ◌+◌, Bool, not, List, [], ◌∷◌, Option, some, Text, ltb, nat_beq, if◌then◌else◌, nat_eq, ◌>>=◌,
}
use hmlb.Prelude.Maps.{Map, lookup}
use hmlb.Prelude.Sort.{sort_stable}
use hmlb.Flappy.Const.{max_race_ticks}
use hmlb.Flappy.Wire.{ResultSnap}
use hmlb.Flappy.World.Defs.{BirdState, World}

pub record Row : Type 0 where
  pub id : ℕ
  pub death : ℕ
  pub name : Text
  pub score : ℕ
  pub left : Bool

unfoldable pub row : {A : Type 0} → BirdState A → Row
row b = record {
  id = b.id;
  death = if b.dead then b.death_tick else max_race_ticks;
  name = b.name;
  score = b.score;
  left = b.left;
}

unfoldable pub rows_of : {A : Type 0} → List ℕ → Map ℕ (BirdState A) → Option (List Row)
rows_of [] m = some []
rows_of (id ∷ ids) m = do b ← lookup id m; rest ← rows_of ids m; some (row b ∷ rest)

-- The better score, then the later death, then the smaller id.
unfoldable pub row_less : Row → Row → Bool
row_less a b =
    if not (nat_beq a.score b.score)
    then ltb b.score a.score
    else if not (nat_beq a.death b.death)
    then ltb b.death a.death
    else ltb a.id b.id

-- Ranks from that number on.
unfoldable pub number_from : ℕ → List Row → List ResultSnap
number_from n [] = []
number_from n (r ∷ rs) =
    record { id = r.id; name = r.name; score = r.score; rank = n; left = r.left }
    ∷ number_from (n + 1) rs

unfoldable pub results : {A : Type 0} → World A → Option (List ResultSnap)
results w = do rows ← rows_of w.order w.birds; some (number_from 1 (sort_stable row_less rows))
