-- ===== src/Flappy/Rank/Podium.antt =====
-- The podium: every racer once, in order, with the ranks 1, 2, 3, …
use hmlb.Prelude.{
  if◌then◌else◌, ℕ, ◌+◌, ◌<◌, ◌≤◌, ◌≡◌, ◌⊎◌, refl, ap, Bool, false, List, [], ◌∷◌, some, Text, map,
  arith, nat_eq,
}
use mathlib.Core.Option
use mathlib.Core.Option.{some-injective}
use hmlb.Prelude.Options.{>>=-eq-some}
use mathlib.Core.List.{Perm}
use hmlb.Prelude.Maps.{Map, lookup, lookup-keys}
use hmlb.Prelude.Sort.{
  IsOrder, IsOrdered, IsSorted-IsOrdered, sort_stable, sort_stable-perm, sort_stable-IsSorted,
}
use hmlb.Flappy.Const.{max_race_ticks}
use hmlb.Flappy.Hub.Finish.{rows_of_total}
use hmlb.Flappy.Rank.{Row, row, row_less, rows_of, number_from, results}
use hmlb.Flappy.Wire.{ResultSnap}
use hmlb.Flappy.World.Defs.{BirdState, World}
use hmlb.Flappy.World.Total.{IsWorld}

-- Better score, then later death, then smaller id: a strict weak order.
row_less-IsOrder : IsOrder row_less
unfolding row_less
row_less-IsOrder = record { asym = λ a b h. ground arith; trans = λ a b c h k. ground arith }

-- n, n + 1, … for each item.
abbrev pub count_from : ℕ → List Row → List ℕ
count_from n [] = []
count_from n (r ∷ rs) = n ∷ count_from (n + 1) rs

number_from-ranks :
    (n : ℕ) (rs : List Row) → map (λ (r : ResultSnap). r.rank) (number_from n rs) ≡ count_from n rs
unfolding number_from
number_from-ranks n [] = refl
number_from-ranks n (r ∷ rs) = ap (◌∷◌ n) (number_from-ranks (n + 1) rs)

-- What the podium shows of a row, beside its rank.
abbrev pub Shown : Type 0
Shown = ℕ × Text × ℕ × Bool

abbrev pub shown_line : ResultSnap → Shown
shown_line r = (r.id, r.name, r.score, r.left)

abbrev pub shown_row : Row → Shown
shown_row r = (r.id, r.name, r.score, r.left)

number_from_shown : (n : ℕ) (rs : List Row) → map shown_line (number_from n rs) ≡ map shown_row rs
unfolding number_from
number_from_shown n [] = refl
number_from_shown n (r ∷ rs) = ap (◌∷◌ (shown_row r)) (number_from_shown (n + 1) rs)

-- A racer's row: a bird that still flies has lasted to the race's last tick.
abbrev pub flown : {A : Type 0} → BirdState A → Row
flown b = record {
  id = b.id;
  death = if b.dead then b.death_tick else max_race_ticks;
  name = b.name;
  score = b.score;
  left = b.left;
}

rows_of-flown :
    {A : Type 0} (ids : List ℕ) (m : Map ℕ (BirdState A)) (rows : List Row)
    → rows_of ids m ≡ some rows
    → map (λ id. Option.map flown (lookup id m)) ids ≡ map some rows
unfolding rows_of row
rows_of-flown [] m rows e = ap (map some) (some-injective [] rows e)
rows_of-flown (id ∷ ids) m rows e =
    let (b, here, more) = >>=-eq-some (lookup id m) _ e in
    let (rest, found, whole) = >>=-eq-some (rows_of ids m) _ more in
    let tail = rows_of-flown ids m rest found in
    rw (here, tail) (ap (map some) (some-injective (flown b ∷ rest) rows whole))

-- The better score, then the later death, then the smaller id; the same row is no worse.
abbrev pub IsAhead : Row → Row → Type 0
IsAhead a b =
    (b.score < a.score)
    ⊎ ((a.score ≡ b.score) × ((b.death < a.death) ⊎ ((a.death ≡ b.death) × (a.id ≤ b.id))))

row_less-IsAhead : (a b : Row) → row_less b a ≡ false → IsAhead a b
unfolding row_less
row_less-IsAhead a b h = ground arith

-- The podium of a well-formed world is there. It shows the racers' rows, each with the bird's id,
-- name, score and whether the player left, in an order in which every row has a better score than a
-- later one, or the same score and a later death, or the same death too and an id that is no
-- larger, where a bird that still flies counts as fallen in the last tick; the ranks are 1, 2, 3, …
pub results-IsPodium :
    {A : Type 0} (w : World A)
    → IsWorld w
    → (rows sorted : List Row) × (res : List ResultSnap) × (results w ≡ some res)
      × (map (λ id. Option.map flown (lookup id w.birds)) w.order ≡ map some rows)
      × Perm sorted rows
      × IsOrdered IsAhead sorted
      × (map shown_line res ≡ map shown_row sorted)
      × (map (λ (r : ResultSnap). r.rank) res ≡ count_from 1 sorted)
unfolding results
results-IsPodium w ok =
    let (rows, found) = rows_of_total w.order w.birds (rw (← ok.keyed) (lookup-keys w.birds)) in
    let sorted = sort_stable row_less rows in
    (
      rows,
      sorted,
      number_from 1 sorted,
      rw (found, results) refl,
      rows_of-flown w.order w.birds rows found,
      sort_stable-perm row_less rows,
      IsSorted-IsOrdered row_less IsAhead sorted row_less-IsAhead
          (sort_stable-IsSorted row_less row_less-IsOrder rows),
      number_from_shown 1 sorted,
      number_from-ranks 1 sorted,
    )
