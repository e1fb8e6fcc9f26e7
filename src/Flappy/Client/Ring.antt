-- ===== src/Flappy/Client/Ring.antt =====
-- internal/client/interp.go: the last snapshots, and the view between two of them. A time is the
-- server's, in milliseconds.
pub mod Bracket
use hmlb.Prelude.{
  ℕ, ◌+◌, ◌-◌, ◌*◌, Bool, true, false, List, [], ◌∷◌, ◌++◌, map, Option, none, some, Text, ltb, leb,
  nat_beq, if◌then◌else◌, last?, length, drop,
}
use hmlb.Prelude.Int.{pos}
use hmlb.Flappy.Const.{ring_len, snap_gap_ms}
use hmlb.Flappy.Float.{Float}
use hmlb.Flappy.Theme.{Theme}
use hmlb.Flappy.Wire.{RaceState, Snapshot, BirdSnap, PipeSnap, ResultSnap}

pub record BirdView (A : Type 0) : Type 0 where
  pub id : ℕ
  pub name : Text
  pub y : A
  pub vy : A
  pub score : ℕ
  pub dead : Bool
  pub left : Bool
  pub flap : Bool
  pub pal : ℕ
  pub acc : ℕ

pub record PipeView (A : Type 0) : Type 0 where
  pub id : ℕ
  pub x : A
  pub gap_y : A
  pub gap_h : A

pub record View (A : Type 0) : Type 0 where
  pub st : RaceState
  pub theme : Theme
  pub seed : ℕ
  pub go_at : ℕ
  pub dist : A
  pub wait : ℕ
  pub birds : List (BirdView A)
  pub pipes : List (PipeView A)
  pub res : List ResultSnap

module _ {A : Type 0} where
  -- The ring is the list of its snapshots; the buffers of its output are not modelled.
  abbrev pub new_ring : List (Snapshot A)
  new_ring = []

  -- `Push`: a stale frame is ignored, and a full ring loses its oldest one.
  unfoldable pub push : Snapshot A → List (Snapshot A) → List (Snapshot A)
  push s snaps =
      let grown = snaps ++ s ∷ [] in
      let kept = if ltb ring_len (length grown) then drop 1 grown else grown in
      elim (last? snaps) [ none ↦ kept | some l ↦ if leb s.now l.now then snaps else kept ]

  unfoldable pub reset : List (Snapshot A) → List (Snapshot A)
  reset snaps = []

  unfoldable pub newest : List (Snapshot A) → Option (Snapshot A)
  newest snaps = last? snaps

  abbrev pub first : List (Snapshot A) → Option (Snapshot A)
  first [] = none
  first (s ∷ ss) = some s

  -- The loop that finds the bracket; no second snapshot means that both ends are the same one.
  unfoldable pub bracket_from :
      ℕ → Snapshot A → Option (Snapshot A) → List (Snapshot A) → Snapshot A × Option (Snapshot A)
  bracket_from t s₀ s₁ [] = (s₀, s₁)
  bracket_from t s₀ s₁ (s ∷ ss) =
      let later = bracket_from t s (first ss) ss in if leb s.now t then later else (s₀, s₁)

  unfoldable pub find_bird : ℕ → List (BirdSnap A) → Option (BirdSnap A)
  find_bird id [] = none
  find_bird id (b ∷ bs) = if nat_beq b.id id then some b else find_bird id bs

  unfoldable pub find_pipe : ℕ → List (PipeSnap A) → Option (PipeSnap A)
  find_pipe id [] = none
  find_pipe id (p ∷ ps) = if nat_beq p.id id then some p else find_pipe id ps

module _ {A : Type 0} ⦃f : Float A⦄ where
  unfoldable pub lerp : A → A → A → A
  lerp a b t = f.add a (f.mul (f.sub b a) t)

  -- The two poses and the share of the second one.
  unfoldable pub blend : ℕ → Snapshot A × Option (Snapshot A) → Snapshot A × Snapshot A × A
  blend t (s₀, none) = (s₀, s₀, f.lit (pos 1) 0)
  blend t (s₀, some s₁) =
      let span = s₁.now - s₀.now in
      if ltb snap_gap_ms span
      then (s₀, s₀, f.lit (pos 0) 0)
      else if ltb 0 span
      then (s₀, s₁, f.div (f.lit (pos (t - s₀.now)) 0) (f.lit (pos span) 0))
      else (s₀, s₁, f.lit (pos 0) 0)

  -- Where a bird is drawn: between its two poses, or at the newer one if it has no older.
  abbrev pub posed : A → BirdSnap A → Option (BirdSnap A) → A × A
  posed alpha b none = (b.y, b.vy)
  posed alpha b (some o) = (lerp o.y b.y alpha, lerp o.vy b.vy alpha)

  unfoldable pub bird_view : Snapshot A → A → BirdSnap A → BirdView A
  unfolding find_bird lerp
  bird_view s₀ alpha b =
      let (y, vy) = posed alpha b (find_bird b.id s₀.birds) in
      record {
        id = b.id;
        name = b.name;
        y = y;
        vy = vy;
        score = b.score;
        dead = b.dead;
        left = b.left;
        flap = b.flap;
        pal = b.pal;
        acc = b.acc;
      }

  unfoldable pub pipe_view : Snapshot A → A → PipeSnap A → PipeView A
  unfolding find_pipe lerp
  pipe_view s₀ alpha p = record {
    id = p.id;
    x = elim (find_pipe p.id s₀.pipes) [ none ↦ p.x | some o ↦ lerp o.x p.x alpha ];
    gap_y = p.g;
    gap_h = p.h;
  }

  unfoldable pub interp : ℕ → List (Snapshot A) → Option (View A)
  unfolding bracket_from blend bird_view pipe_view lerp
  interp t [] = none
  interp t (s ∷ ss) =
      let (s₀, s₁, alpha) = blend t (bracket_from t s none (s ∷ ss)) in
      some (record {
        st = s₁.st;
        theme = s₁.theme;
        seed = s₁.seed;
        go_at = s₁.go_at;
        dist = lerp s₀.dist s₁.dist alpha;
        wait = s₁.wait;
        birds = map (bird_view s₀ alpha) s₁.birds;
        pipes = map (pipe_view s₀ alpha) s₁.pipes;
        res = s₁.res;
      })
