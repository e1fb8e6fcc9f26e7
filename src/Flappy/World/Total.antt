-- ===== src/Flappy/World/Total.antt =====
-- A tick of a well-formed world ends: no missing bird, and the spawn loop runs out of road, not of fuel.
use hmlb.Prelude.{
  ℕ, zero, suc, ◌+◌, ◌*◌, ◌<◌, ◌≤◌, ◌^◌, ◌≡◌, nat_beq, nat_beq_iff, refl, sym, ap, ◌∙◌, true, List,
  [], ◌∷◌, ◌++◌, Option, none, some, last?, last-snoc, last-keep, nat_eq, arith, Bool-cases, inl,
  inr, keep, map,
}
use hmlb.Prelude.All.{Distinct}
use hmlb.Prelude.Int.{pos, negsuc, ◌+ℤ◌, pos-add}
use hmlb.Prelude.Maps.{Map, keys, map_values, keys-map_values}
use hmlb.Prelude.Loops.{update_each, update_each-map_values}
use hmlb.Prelude.Words.{u64}
use hmlb.Flappy.Const
use hmlb.Flappy.Float.{Float, FloatLaws}
use hmlb.Flappy.World.Defs.{BirdState, Pipe, World}
use hmlb.Flappy.World.Step.{
  spawn_pipe, next_x, spawn_pipes, spawn_fuel, advanced, fly, scroll_world, land, step, ramp,
  shifted,
}

module _ {A : Type 0} where
  -- The birds are those of the join order, each once.
  pub record IsWorld (w : World A) : Type 0 where
    pub keyed : keys w.birds ≡ w.order
    pub distinct : Distinct (keys w.birds)

  -- A loop over the join order reaches every bird.
  pub update_each_all :
      (g : ℕ → BirdState A → BirdState A) (ks : List ℕ) (m : Map ℕ (BirdState A))
      → keys m ≡ ks
      → Distinct (keys m)
      → update_each g ks m ≡ some (map_values g m)
  update_each_all g ks m e d = rw (← e) (update_each-map_values g m d)

module _ {A : Type 0} ⦃f : Float A⦄ where
  next_x-snoc :
      (ps : List (Pipe A)) (p : Pipe A) → next_x (ps ++ p ∷ []) ≡ f.add p.x Const.pipe_spacing
  unfolding next_x
  next_x-snoc ps p = rw (last-snoc ps p, next_x)

  next_x-spawn_pipe :
      (x : A) (w : World A) → next_x (spawn_pipe x w).pipes ≡ f.add x Const.pipe_spacing
  unfolding spawn_pipe
  next_x-spawn_pipe x w = next_x-snoc w.pipes _

  -- Spawning touches the pipes alone.
  abbrev pub SameRace : World A → World A → Type 0
  SameRace w v = (v.order ≡ w.order) × (v.birds ≡ w.birds) × (v.tick ≡ w.tick)

  spawn_pipe-SameRace : (x : A) (w : World A) → SameRace w (spawn_pipe x w)
  unfolding spawn_pipe
  spawn_pipe-SameRace x w = (refl, refl, refl)

module _ {A : Type 0} ⦃f : Float A⦄ (laws : FloatLaws f) where
  lit_le : (m n : ℕ) → m ≤ n → n < 2 ^ 53 → f.le (f.lit (pos m) 0) (f.lit (pos n) 0) ≡ true
  lit_le m n h k = elim (Bool-cases (nat_beq m n)) [
    | inl same ↦
        let e : m ≡ n = (nat_beq_iff m n).0 same in rw e (laws.lit_le_refl (pos n) (omega arith))
    | inr other ↦
        laws.lt-le _ _ (laws.lit_lt (pos m) (pos n) (omega arith) (omega arith) (ground arith))
  ]

  whole_sum :
      (m n : ℕ) → m + n < 2 ^ 53 → f.add (f.lit (pos m) 0) (f.lit (pos n) 0) ≡ f.lit (pos (m + n)) 0
  whole_sum m n h =
      rw (← pos-add m n)
        (laws.lit_add (pos m) (pos n) (omega arith) (omega arith) (rw (pos-add m n) (omega arith)))

  -- The next pipe stands one spacing further on.
  next_x_grows :
      (m : ℕ) (w : World A)
      → m < 2 ^ 52
      → f.le (f.lit (pos m) 0) (next_x w.pipes) ≡ true
      → f.le (f.lit (pos (m + 260)) 0) (next_x (spawn_pipe (next_x w.pipes) w).pipes) ≡ true
  next_x_grows m w small h =
      rw (next_x-spawn_pipe (next_x w.pipes) w)
        (rw (whole_sum m 260 (omega arith)) at (laws.add_mono _ _ (pos 260) h))

  spawn_pipes_from :
      (fuel m : ℕ) (w : World A)
      → 3460 ≤ m + 260 * fuel
      → m + 260 * fuel < 2 ^ 52
      → f.le (f.lit (pos m) 0) (next_x w.pipes) ≡ true
      → (v : World A) × (spawn_pipes (suc fuel) w ≡ some v) × SameRace w v
  unfolding spawn_pipes
  spawn_pipes_from zero m w far small h =
      let stop : f.le Const.spawn_until (next_x w.pipes) ≡ true =
        laws.le_trans _ _ _ (lit_le 3460 m (omega arith) (omega arith)) h in
      (w, rw (stop, spawn_pipes) refl, (refl, refl, refl))
  spawn_pipes_from (suc fuel) m w far small h =
      elim (Bool-cases (f.le Const.spawn_until (next_x w.pipes))) [
        | inl stop ↦ (w, rw (stop, spawn_pipes) refl, (refl, refl, refl))
        | inr more ↦
            let (v, runs, same) =
              spawn_pipes_from fuel (m + 260) (spawn_pipe (next_x w.pipes) w) (omega arith)
                (omega arith) (next_x_grows m w (omega arith) h) in
            let start = spawn_pipe-SameRace (next_x w.pipes) w in
            (v, rw (more, spawn_pipes) runs, (same.0 ∙ start.0, same.1 ∙ start.1, same.2 ∙ start.2))
      ]

  -- What is kept stands right of the drop line, so the next pipe is due at 180 at the earliest.
  next_x-scroll_world :
      (w : World A) → f.le (f.lit (pos 180) 0) (next_x (scroll_world w).pipes) ≡ true
  unfolding next_x scroll_world ◌+ℤ◌
  next_x-scroll_world w = go (last? ps) refl
    where
      ps : List (Pipe A)
      ps = keep (λ p. f.lt Const.drop_x p.x) (map (shifted w.scroll) w.pipes)

      go : (o : Option (Pipe A)) → last? ps ≡ o → f.le (f.lit (pos 180) 0) (next_x ps) ≡ true
      go none e = rw (e, next_x) (lit_le 180 440 (omega arith) (omega arith))
      go (some p) e =
          rw (e, next_x)
            (rw (laws.lit_add (negsuc 79) (pos 260) (omega arith) (omega arith) (omega arith)) at (
              laws.add_mono Const.drop_x p.x (pos 260)
                (laws.lt-le _ _ (last-keep (λ q. f.lt Const.drop_x q.x) _ p e))))

  -- The spawn loop of a tick ends within its fuel.
  spawn_pipes_total :
      (w : World A)
      → (v : World A) × (spawn_pipes spawn_fuel (scroll_world w) ≡ some v)
        × SameRace (scroll_world w) v
  spawn_pipes_total w =
      spawn_pipes_from 15 180 (scroll_world w) (omega arith) (omega arith) (next_x-scroll_world w)

  abbrev pub flown : Map ℕ (Unit {0}) → World A → Map ℕ (BirdState A)
  flown flaps w = map_values (fly (advanced w).tick flaps) w.birds

  ramp-SameRace : (w : World A) → SameRace w (ramp w)
  unfolding ramp
  ramp-SameRace w = ground arith

  step-runs :
      (flaps : Map ℕ (Unit {0})) (w : World A) (flown : Map ℕ (BirdState A)) (v : World A)
      (landed : Map ℕ (BirdState A))
      → update_each (fly (advanced w).tick flaps) (advanced w).order (advanced w).birds ≡ some flown
      → spawn_pipes spawn_fuel (scroll_world (record (advanced w) { birds = flown })) ≡ some v
      → update_each (land v.tick v.pipes) v.order v.birds ≡ some landed
      → step flaps w ≡ some (record v { birds = landed })
  unfolding step
  step-runs flaps w flown v landed e₁ e₂ e₃ = rw (e₁, step, e₂, e₃) refl

  -- The pipes after a tick are those that the spawn loop leaves.
  abbrev pub IsSpawned : Map ℕ (Unit {0}) → World A → World A → Type 0
  IsSpawned flaps w v =
      (u : World A) × (spawn_pipes spawn_fuel
          (scroll_world (record (advanced w) { birds = flown flaps w }))
        ≡ some u)
      × (v.pipes ≡ u.pipes)

  -- A tick of a well-formed world ends, and gives every bird its flight and its fate.
  pub step_total :
      (flaps : Map ℕ (Unit {0})) (w : World A)
      → IsWorld w
      → (v : World A) × (step flaps w ≡ some v)
        × (v.order ≡ w.order)
        × (v.tick ≡ u64 (w.tick + 1))
        × (v.birds ≡ map_values (land v.tick v.pipes) (map_values (fly v.tick flaps) w.birds))
        × IsSpawned flaps w v
  unfolding scroll_world
  step_total flaps w ok =
      let w₁ = advanced w in
      let ramped = ramp-SameRace (record w { tick = u64 (w.tick + 1) }) in
      let birds₁ = flown flaps w in
      let e₁ : update_each (fly w₁.tick flaps) w₁.order w₁.birds ≡ some birds₁ =
        rw (ramped.0, ramped.1)
          (update_each_all (fly w₁.tick flaps) w.order w.birds ok.keyed ok.distinct) in
      let (v, e₂, same) = spawn_pipes_total (record w₁ { birds = birds₁ }) in
      let ks : keys v.birds ≡ keys w.birds =
        ap keys same.1 ∙ keys-map_values (fly w₁.tick flaps) w.birds in
      let e₃ : update_each (land v.tick v.pipes) v.order v.birds
          ≡ some (map_values (land v.tick v.pipes) v.birds) =
        update_each_all (land v.tick v.pipes) v.order v.birds
          (ks ∙ ok.keyed ∙ sym ramped.0 ∙ sym same.0) (rw ks ok.distinct) in
      let tick₁ : v.tick ≡ u64 (w.tick + 1) = same.2 ∙ ramped.2 in
      (
        record v { birds = map_values (land v.tick v.pipes) v.birds },
        step-runs flaps w birds₁ v _ e₁ e₂ e₃,
        same.0 ∙ ramped.0,
        tick₁,
        ap (map_values (land v.tick v.pipes))
            (same.1 ∙ ap (λ t. map_values (fly t flaps) w.birds) (ramped.2 ∙ sym tick₁)),
        (v, e₂, refl),
      )
