-- ===== src/Flappy/Hub/Admission.antt =====
-- The race that a countdown begins: every player gets a bird, in join order.
use hmlb.Prelude.{
  ℕ, ◌+◌, ◌≡◌, refl, sym, ap, ◌∙◌, List, [], ◌∷◌, ◌++◌, some, none, nat_eq, arith, inl, inr,
}
use mathlib.Core.List.{append_assoc, append-nil}
use hmlb.Prelude.All.{All, Fresh, Distinct, Fresh-Distinct}
use hmlb.Prelude.Maps.{Map, keys, lookup, insert, lookup-insert_inv, lookup-keys}
use hmlb.Flappy.Float.{Float}
use hmlb.Flappy.Rng.{next}
use hmlb.Flappy.Hub.Defs.{Session, RaceInfo, Hub, pick_theme}
use hmlb.Flappy.Hub.Handlers.{place_racer, admit_all, begin_countdown}
use hmlb.Flappy.Hub.Invariant.{IsAllAlive}
use hmlb.Flappy.Wire.{countdown}
use hmlb.Flappy.World.Defs.{BirdState, World, new_world, new_bird, add_bird}
use hmlb.Flappy.World.Total.{IsWorld}
use hmlb.Flappy.World.Racers.{new_world-IsWorld, add_bird_new, add_bird-IsWorld, lookup-order}

module _ {A : Type 0} ⦃f : Float A⦄ where
  -- A world whose racers are those ids, all of them alive.
  abbrev pub IsLineUp : World A → List ℕ → Type 0
  IsLineUp w ids = IsWorld w × (w.order ≡ ids) × IsAllAlive w.birds

  -- The hub with another world and other race data.
  abbrev pub with_race : Hub A → World A → Map ℕ RaceInfo → Hub A
  with_race h w info = record h { world = some w; race_info = info }

  pub place_racer_total :
      (id : ℕ) (s : Session) (h : Hub A) (w : World A) (ids : List ℕ)
      → h.world ≡ some w
      → IsLineUp w ids
      → Fresh id ids
      → (v : World A) × (info : Map ℕ RaceInfo) × (place_racer id s h ≡ some (with_race h v info))
        × IsLineUp v (ids ++ id ∷ [])
  unfolding place_racer new_bird
  place_racer_total id s h w ids e (ok, order, flying) fresh =
      let absent : lookup id w.birds ≡ none = lookup-order id w ok (rw order fresh) in
      let v = add_bird id s.name s.bird.palette s.bird.accessory w in
      let grown = add_bird_new id s.name s.bird.palette s.bird.accessory w absent in
      (
        v,
        insert id (record { name = s.name; bird = s.bird }) h.race_info,
        ground (arith, e),
        (
          add_bird-IsWorld id s.name s.bird.palette s.bird.accessory w absent ok,
          ap (λ (u : World A). u.order) grown ∙ ap (λ ks. ks ++ id ∷ []) order,
          λ k b found.
              elim (lookup-insert_inv id k (new_bird id s.name s.bird.palette s.bird.accessory) b
                w.birds (rw grown at found)) [
                  | inl (_, this) ↦ ap (λ (u : BirdState A). u.dead) (sym this)
                  | inr (_, old) ↦ flying k b old
                ],
        ),
      )

  pub admit_all_total :
      (ids done : List ℕ) (h : Hub A) (w : World A)
      → h.world ≡ some w
      → IsLineUp w done
      → Distinct (done ++ ids)
      → All (λ k. (s : Session) × (lookup k h.players ≡ some s)) ids
      → (v : World A) × (info : Map ℕ RaceInfo) × (admit_all ids h ≡ some (with_race h v info))
        × IsLineUp v (done ++ ids)
  unfolding admit_all
  admit_all_total [] done h w e up d found =
      let all : done ++ [] ≡ done = append-nil done in
      (w, h.race_info, ground (arith, e), (up.0, up.1 ∙ sym all, up.2))
  admit_all_total (id ∷ ids) done h w e up d ((s, here), found) =
      let (w₁, info₁, places, up₁) =
        place_racer_total id s h w done e up (Fresh-Distinct done id ids d) in
      let regroup : (done ++ id ∷ []) ++ ids ≡ done ++ id ∷ ids = append_assoc done (id ∷ []) ids in
      let (v, info, runs, up₂) =
        admit_all_total ids (done ++ id ∷ []) (with_race h w₁ info₁) w₁ refl up₁ (rw regroup d)
          found in
      (v, info, rw (here, admit_all, places) runs, (up₂.0, up₂.1 ∙ regroup, up₂.2))

  -- What `beginCountdown` changes besides the race's own world.
  abbrev pub begun : ℕ → Hub A → World A → Map ℕ RaceInfo → Hub A
  begun now h w info =
      let (seed, r₁) = next h.rng in
      let (theme, r₂) = pick_theme h.last_theme r₁ in
      record h {
        st = countdown;
        go_at = now + h.cfg.countdown_ms;
        seed = seed;
        theme = theme;
        rng = r₂;
        world = some w;
        race_info = info;
        results = [];
      }

  -- Where the players are those of the join order, each once, `beginCountdown` does not fault: the
  -- new race has exactly them as its racers, in join order, and all of them fly.
  pub begin_countdown_total :
      (now : ℕ) (h : Hub A)
      → keys h.players ≡ h.order
      → Distinct h.order
      → (w : World A) × (info : Map ℕ RaceInfo) × (begin_countdown now h
          ≡ some (begun now h w info))
        × IsLineUp w h.order
  unfolding begin_countdown new_world lookup
  begin_countdown_total now h keyed d =
      let seed = (next h.rng).0 in
      admit_all_total h.order [] (begun now h (new_world seed) []) (new_world seed) refl
        (new_world-IsWorld seed, refl, λ k b e. cc) d (rw keyed at (lookup-keys h.players))
