-- ===== src/Flappy/Hub/Handlers/Race.antt =====
-- internal/server/hub.go: the countdown, the racers and the end of a race.
use hmlb.Prelude.{ℕ, ◌+◌, List, [], ◌∷◌, Option, none, some, nat_eq, text_eq, ◌>>=◌, map}
use hmlb.Prelude.Maps.{Map, lookup, insert}
use hmlb.Flappy.Birds.{no_bird}
use hmlb.Flappy.Float.{Float}
use hmlb.Flappy.Hub.Defs.{Session, RaceInfo, Hub, pick_theme}
use hmlb.Flappy.Hub.Frames.{broadcast}
use hmlb.Flappy.Rank
use hmlb.Flappy.Rng.{next}
use hmlb.Flappy.Store.Defs.{RaceEntry, record_race}
use hmlb.Flappy.Wire.{waiting, countdown, finished, ResultSnap}
use hmlb.Flappy.World.Defs.{new_world, add_bird}

abbrev pub race_entry : Map ℕ RaceInfo → ResultSnap → RaceEntry
race_entry info r = record {
  name = r.name;
  score = r.score;
  rank = r.rank;
  bird = elim (lookup r.id info) [ none ↦ no_bird | some i ↦ i.bird ];
}

module _ {A : Type 0} ⦃f : Float A⦄ where
  -- The race is over and nobody is left to see it.
  abbrev pub idle : Hub A → Hub A
  idle h = record h { st = waiting; world = none; race_info = []; results = [] }

  -- A bird and an entry of `raceInfo` for one racer.
  unfoldable pub place_racer : ℕ → Session → Hub A → Option (Hub A)
  place_racer id s h = do
    w ← h.world
    some (record h {
      world = some (add_bird id s.name s.bird.palette s.bird.accessory w);
      race_info = insert id (record { name = s.name; bird = s.bird }) h.race_info;
    })

  unfoldable pub admit_racer : Session → Hub A → Option (Hub A)
  unfolding place_racer
  admit_racer s h = place_racer s.id s h

  -- Every connected player becomes a racer.
  unfoldable pub admit_all : List ℕ → Hub A → Option (Hub A)
  unfolding place_racer
  admit_all [] h = some h
  admit_all (id ∷ ids) h = do s ← lookup id h.players; h' ← place_racer id s h; admit_all ids h'

  unfoldable pub begin_countdown : ℕ → Hub A → Option (Hub A)
  unfolding admit_all
  begin_countdown now h =
      let (seed, r₁) = next h.rng in
      let (theme, r₂) = pick_theme h.last_theme r₁ in
      admit_all h.order (record h {
        st = countdown;
        go_at = now + h.cfg.countdown_ms;
        seed = seed;
        theme = theme;
        rng = r₂;
        world = some (new_world seed);
        race_info = [];
        results = [];
      })

  -- The results window, if anybody is there to see it.
  unfoldable pub open_results : Map ℕ Session → ℕ → ℕ → Hub A → Option (Hub A)
  open_results [] now sent h = some (idle h)
  open_results (p ∷ ps) now sent h =
      broadcast sent (record h { st = finished; finish_at = now + h.cfg.results_ms })

  abbrev pub ranked : ℕ → List ResultSnap → Hub A → Hub A
  ranked now results h = record h {
    results = results;
    last_theme = h.theme;
    store = record_race (map (race_entry h.race_info) results) h.theme now h.store;
  }

  unfoldable pub finish_race : ℕ → ℕ → Hub A → Option (Hub A)
  unfolding open_results
  finish_race now sent h = do
    w ← h.world
    results ← Rank.results w
    open_results h.players now sent (ranked now results h)
