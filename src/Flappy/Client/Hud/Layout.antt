-- ===== src/Flappy/Client/Hud/Layout.antt =====
-- What the overlay shows of a snapshot.
use hmlb.Prelude.{
  ℕ, zero, suc, ◌+◌, ◌-◌, ◌/◌, ◌≤◌, ◌≡◌, refl, Bool, true, false, not, ltb, arith, inl, inr,
  Bool-cases, if◌then◌else◌, List, [], ◌∷◌, Text, take, nat_beq, Option, none, some, map,
}
use mathlib.Core.List.{Perm}
use hmlb.Prelude.Sort.{
  IsOrder, IsOrdered, IsSorted-IsOrdered, sort_stable, sort_stable-perm, sort_stable-IsSorted,
}
use hmlb.Flappy.Const.{max_leaderboard_rows}
use hmlb.Flappy.Wire.{RaceState, waiting, countdown, racing, finished, Snapshot, BirdSnap}
use hmlb.Prelude.{◌⊎◌, ◌<◌, ◌*◌, ap, ◌∙◌}
use hmlb.Flappy.Client.Hud.{
  HudRow, Hud, itoa, clamp_int, clock_face, own_bird, hud_row, hud_less, ranked_from, derive_hud,
}

itoa_digit : (n : ℕ) → n ≤ 9 → itoa n ≡ some ((48 + n) ∷ [])
unfolding itoa
itoa_digit n h = ground arith

clamp_int_within : (v lo hi : ℕ) → lo ≤ hi → (lo ≤ clamp_int v lo hi) × (clamp_int v lo hi ≤ hi)
unfolding clamp_int
clamp_int_within v lo hi h = (ground arith, ground arith)

-- The seconds that are left, rounded up, and 3 at most.
seconds_of :
    (d : ℕ)
    → 0 < d
    → let n = clamp_int ((d + 999) / 1000) 1 3 in
      ((n ≡ 3) ⊎ ((n ≤ 3) × (d ≤ n * 1000))) × ((n - 1) * 1000 < d)
unfolding clamp_int
seconds_of d some_left = (ground arith, ground arith)

-- The number and the GO flag: the seconds that are left, the one that has begun included, but 3 at
-- most, until the start; then GO for 700 milliseconds.
abbrev pub IsClock : RaceState → ℕ → ℕ → Text × Bool → Type 0
IsClock waiting go_at now r = r ≡ ([], false)
IsClock countdown go_at now r =
    ((go_at ≤ now) × (r ≡ ([], true)))
    ⊎ ((now < go_at)
        × ((n : ℕ) × (r ≡ ((48 + n) ∷ [], false))
            × (1 ≤ n)
            × ((n ≡ 3) ⊎ ((n ≤ 3) × (go_at - now ≤ n * 1000)))
            × ((n - 1) * 1000 < go_at - now)))
IsClock racing go_at now r =
    ((now < go_at + 700) × (r ≡ ([], true))) ⊎ ((go_at + 700 ≤ now) × (r ≡ ([], false)))
IsClock finished go_at now r = r ≡ ([], false)

clock_face-IsClock :
    (st : RaceState) (go_at now : ℕ)
    → (r : Text × Bool) × (clock_face st go_at now ≡ some r) × IsClock st go_at now r
unfolding clock_face
clock_face-IsClock waiting go_at now = (([], false), refl, refl)
clock_face-IsClock countdown go_at now = elim (Bool-cases (ltb now go_at)) [
  | inr over ↦ (([], true), rw (over, clock_face) refl, inl (ground arith, refl))
  | inl left ↦
      let n = clamp_int ((go_at - now + 999) / 1000) 1 3 in
      let seconds = seconds_of (go_at - now) (ground arith) in
      let within = clamp_int_within ((go_at - now + 999) / 1000) 1 3 (omega arith) in
      (
        ((48 + n) ∷ [], false),
        rw (left, clock_face, itoa_digit n (omega (arith, within.1))) refl,
        inr (ground arith, (n, refl, within.0, seconds.0, seconds.1)),
      )
]
clock_face-IsClock racing go_at now = elim (Bool-cases (ltb now (go_at + 700))) [
  | inl early ↦ (([], true), rw (early, clock_face) refl, inl (ground arith, refl))
  | inr late ↦ (([], false), rw (late, clock_face) refl, inr (ground arith, refl))
]
clock_face-IsClock finished go_at now = (([], false), refl, refl)

module _ {A : Type 0} where
  -- The last bird of the player, if there is one.
  abbrev pub own_of : ℕ → List (BirdSnap A) → Option (BirdSnap A)
  own_of self [] = none
  own_of self (b ∷ bs) = elim (own_of self bs) [
    | some c ↦ some c
    | none ↦ if nat_beq b.id self then some b else none
  ]

  -- The score, whether it is dead, and whether the player only watches.
  abbrev pub standing : Option (BirdSnap A) → ℕ × Bool × Bool
  standing none = (0, false, true)
  standing (some b) = (b.score, b.dead, false)

  abbrev standing_or : ℕ × Bool × Bool → Option (BirdSnap A) → ℕ × Bool × Bool
  standing_or own none = own
  standing_or own (some b) = (b.score, b.dead, false)

  standing_or_none : (o : Option (BirdSnap A)) → standing_or (0, false, true) o ≡ standing o
  standing_or_none none = refl
  standing_or_none (some b) = refl

  own_step :
      (hit : Bool) (o : Option (BirdSnap A)) (b : BirdSnap A) (own : ℕ × Bool × Bool)
      → standing_or (if hit then (b.score, b.dead, false) else own) o
        ≡ standing_or own (elim o [ some c ↦ some c | none ↦ if hit then some b else none ])
  own_step true none b own = refl
  own_step true (some c) b own = refl
  own_step false none b own = refl
  own_step false (some c) b own = refl

  own_bird-standing :
      (self : ℕ) (bs : List (BirdSnap A)) (own : ℕ × Bool × Bool)
      → own_bird self bs own ≡ standing_or own (own_of self bs)
  unfolding own_bird
  own_bird-standing self [] own = refl
  own_bird-standing self (b ∷ bs) own =
      own_bird-standing self bs (if nat_beq b.id self then (b.score, b.dead, false) else own)
      ∙ own_step (nat_beq b.id self) (own_of self bs) b own

  -- A row of the overlay, before it has a rank.
  abbrev pub plain_row : ℕ → BirdSnap A → HudRow
  plain_row self b = record {
    id = b.id;
    name = b.name;
    score = b.score;
    alive = not b.dead;
    left = b.left;
    self = nat_beq b.id self;
    rank = 0;
  }

-- The living before the fallen, then the better score, then the smaller id: a strict weak order.
hud_less-IsOrder : IsOrder hud_less
unfolding hud_less
hud_less-IsOrder = record { asym = λ a b h. ground arith; trans = λ a b c h k. ground arith }

-- The living before the fallen, then the better score, then the smaller id.
abbrev pub IsHigher : HudRow → HudRow → Type 0
IsHigher a b =
    ((a.alive ≡ true) × (b.alive ≡ false))
    ⊎ ((a.alive ≡ b.alive) × ((b.score < a.score) ⊎ ((a.score ≡ b.score) × (a.id ≤ b.id))))

hud_less-IsHigher : (a b : HudRow) → hud_less b a ≡ false → IsHigher a b
unfolding hud_less
hud_less-IsHigher a b h = ground arith

-- n, n + 1, … for each item.
abbrev pub ranks_from : ℕ → List HudRow → List ℕ
ranks_from n [] = []
ranks_from n (r ∷ rs) = n ∷ ranks_from (n + 1) rs

abbrev pub unranked : HudRow → HudRow
unranked r = record r { rank = 0 }

ranked_from-ranks :
    (n : ℕ) (rs : List HudRow) → map (λ (r : HudRow). r.rank) (ranked_from n rs) ≡ ranks_from n rs
unfolding ranked_from
ranked_from-ranks n [] = refl
ranked_from-ranks n (r ∷ rs) = ap (◌∷◌ n) (ranked_from-ranks (n + 1) rs)

ranked_from-unranked :
    (n : ℕ) (rs : List HudRow) → map unranked (ranked_from n rs) ≡ map unranked rs
unfolding ranked_from
ranked_from-unranked n [] = refl
ranked_from-unranked n (r ∷ rs) = ap (◌∷◌ (unranked r)) (ranked_from-unranked (n + 1) rs)

take-map {ℓ κ} :
    {A : Type ℓ} {B : Type κ} (f : A → B) (k : ℕ) (xs : List A)
    → map f (take k xs) ≡ take k (map f xs)
take-map f zero [] = refl
take-map f zero (x ∷ xs) = refl
take-map f (suc k) [] = refl
take-map f (suc k) (x ∷ xs) = ap (◌∷◌ (f x)) (take-map f k xs)

take-ranks_from : (k n : ℕ) (rs : List HudRow) → take k (ranks_from n rs) ≡ ranks_from n (take k rs)
take-ranks_from zero n [] = refl
take-ranks_from zero n (r ∷ rs) = refl
take-ranks_from (suc k) n [] = refl
take-ranks_from (suc k) n (r ∷ rs) = ap (◌∷◌ n) (take-ranks_from k (n + 1) rs)

map-plain_row :
    {A : Type 0} (self : ℕ) (bs : List (BirdSnap A))
    → map unranked (map (hud_row self) bs) ≡ map (plain_row self) bs
unfolding hud_row
map-plain_row self [] = refl
map-plain_row self (b ∷ bs) = ap (◌∷◌ (plain_row self b)) (map-plain_row self bs)

-- `DeriveHUD` never faults. It shows the countdown, or GO, that the clock is at; the score of the
-- player's own bird and whether it is dead, or that the player only watches if there is no such
-- bird; the podium and the number of waiting players as they were sent; and, ranked 1, 2, 3, …, the
-- first `MaxLeaderboardRows` of the rows of all birds, in an order in which the living stand before
-- the fallen, and of these the better score before the lower one, and of equal scores the smaller
-- id first.
pub derive_hud_total :
    {A : Type 0} (snap : Snapshot A) (now self : ℕ)
    → (hud : Hud) × (sorted : List HudRow) × (derive_hud snap now self ≡ some hud)
      × IsClock snap.st snap.go_at now (hud.countdown, hud.go)
      × ((hud.own_score, hud.dead, hud.spect) ≡ standing (own_of self snap.birds))
      × (hud.results ≡ snap.res)
      × (hud.waiting ≡ snap.wait)
      × Perm sorted (map (hud_row self) snap.birds)
      × (map unranked (map (hud_row self) snap.birds) ≡ map (plain_row self) snap.birds)
      × IsOrdered IsHigher sorted
      × (map unranked hud.rows ≡ take max_leaderboard_rows (map unranked sorted))
      × (map (λ (r : HudRow). r.rank) hud.rows ≡ ranks_from 1 (take max_leaderboard_rows sorted))
unfolding derive_hud
derive_hud_total snap now self =
    let (r, shows, clock) = clock_face-IsClock snap.st snap.go_at now in
    let rows = map (hud_row self) snap.birds in
    let sorted = sort_stable hud_less rows in
    let ranked = ranked_from 1 sorted in
    let own = own_bird self snap.birds (0, false, true) in
    (
      record {
        countdown = r.0;
        go = r.1;
        own_score = own.0;
        rows = take max_leaderboard_rows ranked;
        waiting = snap.wait;
        dead = own.1;
        spect = own.2;
        results = snap.res;
      },
      sorted,
      rw (shows, derive_hud) refl,
      clock,
      own_bird-standing self snap.birds (0, false, true)
          ∙ standing_or_none (own_of self snap.birds),
      refl,
      refl,
      sort_stable-perm hud_less rows,
      map-plain_row self snap.birds,
      IsSorted-IsOrdered hud_less IsHigher sorted hud_less-IsHigher
          (sort_stable-IsSorted hud_less hud_less-IsOrder rows),
      take-map unranked max_leaderboard_rows ranked
          ∙ ap (take max_leaderboard_rows) (ranked_from-unranked 1 sorted),
      take-map (λ (r : HudRow). r.rank) max_leaderboard_rows ranked
          ∙ ap (take max_leaderboard_rows) (ranked_from-ranks 1 sorted)
          ∙ take-ranks_from max_leaderboard_rows 1 sorted,
    )
