-- ===== src/Flappy/World/Ticks.antt =====
-- What one tick does to each bird.
use mathlib.Core.Option
use hmlb.Prelude.{
  ℕ, ◌+◌, ◌≡◌, refl, sym, ap, ◌∙◌, true, false, Option, some, none, nat_eq, arith, inl, inr,
  Option-cases, Bool-cases,
}
use hmlb.Prelude.Maps.{Map, keys, lookup, map_values, keys-map_values, lookup-map_values}
use hmlb.Prelude.Words.{u64}
use hmlb.Flappy.Float.{Float, FloatLaws}
use hmlb.Flappy.World.Defs.{BirdState, World}
use hmlb.Flappy.World.Step.{fly, land, step}
use hmlb.Flappy.World.Total.{IsWorld, step_total}
use hmlb.Flappy.World.Racers.{fly_dead, land_dead}

module _ {A : Type 0} ⦃f : Float A⦄ where
  -- A bird after a tick that ended at this count with these pipes.
  abbrev pub ticked : Map ℕ (Unit {0}) → World A → ℕ → BirdState A → BirdState A
  ticked flaps v k b = land v.tick v.pipes k (fly v.tick flaps k b)

  -- What a tick does, apart from the pipes.
  abbrev pub IsTick : Map ℕ (Unit {0}) → World A → World A → Type 0
  IsTick flaps w v =
      (v.order ≡ w.order)
      × (v.tick ≡ u64 (w.tick + 1))
      × ((k : ℕ) → lookup k v.birds ≡ Option.map (ticked flaps v k) (lookup k w.birds))

  -- A tick leaves a dead bird exactly as it is.
  pub ticked_dead :
      (flaps : Map ℕ (Unit {0})) (v : World A) (k : ℕ) (b : BirdState A)
      → b.dead ≡ true
      → ticked flaps v k b ≡ b
  ticked_dead flaps v k b dead =
      rw (fly_dead v.tick flaps k b dead) (land_dead v.tick v.pipes k b dead)

  lookup-ticked :
      (flaps : Map ℕ (Unit {0})) (w v : World A)
      → v.birds ≡ map_values (land v.tick v.pipes) (map_values (fly v.tick flaps) w.birds)
      → (k : ℕ) → lookup k v.birds ≡ Option.map (ticked flaps v k) (lookup k w.birds)
  lookup-ticked flaps w v e k =
      ap (lookup k) e
      ∙ lookup-map_values (land v.tick v.pipes) k (map_values (fly v.tick flaps) w.birds)
      ∙ rw (lookup-map_values (fly v.tick flaps) k w.birds) (go (lookup k w.birds))
    where
      go :
          (o : Option (BirdState A))
          → Option.map (land v.tick v.pipes k) (Option.map (fly v.tick flaps k) o)
            ≡ Option.map (ticked flaps v k) o
      go none = refl
      go (some b) = refl

  ticked-IsWorld :
      (flaps : Map ℕ (Unit {0})) (w v : World A)
      → v.birds ≡ map_values (land v.tick v.pipes) (map_values (fly v.tick flaps) w.birds)
      → v.order ≡ w.order
      → IsWorld w
      → IsWorld v
  ticked-IsWorld flaps w v e o ok =
      let same : keys v.birds ≡ keys w.birds =
        ap keys e
        ∙ keys-map_values (land v.tick v.pipes) (map_values (fly v.tick flaps) w.birds)
        ∙ keys-map_values (fly v.tick flaps) w.birds in
      record { keyed = same ∙ ok.keyed ∙ sym o; distinct = rw same ok.distinct }

  -- A bird that is alive after a tick was alive before it.
  pub ticked-flying :
      (flaps : Map ℕ (Unit {0})) (w v : World A) (k : ℕ) (b : BirdState A)
      → lookup k v.birds ≡ Option.map (ticked flaps v k) (lookup k w.birds)
      → lookup k v.birds ≡ some b
      → b.dead ≡ false
      → (c : BirdState A) × (lookup k w.birds ≡ some c) × (c.dead ≡ false)
  ticked-flying flaps w v k b t e flying = elim (Option-cases (lookup k w.birds)) [
    | inl gone ↦ cc (t, gone)
    | inr (c, found) ↦ elim (Bool-cases c.dead) [
      | inr alive ↦ (c, found, alive)
      | inl dead ↦
          let same : some b ≡ some c =
            sym e
            ∙ t
            ∙ ap (Option.map (ticked flaps v k)) found
            ∙ ap some (ticked_dead flaps v k c dead) in
          ground (arith, same)
    ]
  ]

  -- With the float laws, a tick of a well-formed world ends in a well-formed world: the join order
  -- is as before, the tick counts one more, and every bird is what its flight and its landing make
  -- of it.
  pub step-IsTick :
      FloatLaws f
      → (flaps : Map ℕ (Unit {0})) (w : World A) → IsWorld w
      → (v : World A) × (step flaps w ≡ some v) × IsWorld v × IsTick flaps w v
  step-IsTick laws flaps w ok =
      let (v, runs, o, t, e, _) = step_total laws flaps w ok in
      (v, runs, ticked-IsWorld flaps w v e o ok, (o, t, lookup-ticked flaps w v e))
