-- ===== src/Flappy/Hub/Liveness.antt =====
-- A race that is counted down is run, and comes to its end.
use hmlb.Prelude.{
  ℕ, suc, ◌+◌, ◌<◌, ◌≤◌, ◌≡◌, ◌⊎◌, sym, ◌∙◌, true, ◌||◌, List, [], ◌∷◌, some, nat_eq, arith, inl,
  inr, Bool-cases, leb, nat_beq, length,
}
use hmlb.Prelude.Words.{u64}
use hmlb.Flappy.Const.{max_race_ticks}
use hmlb.Flappy.Float.{Float, FloatLaws}
use hmlb.Flappy.Hub.Defs.{Hub}
use hmlb.Flappy.Hub.Handlers.{settle, tick_countdown, tick_in, tick}
use hmlb.Flappy.Hub.Duration.{race_tick}
use hmlb.Flappy.Hub.Invariant.{IsRace, IsHub}
use hmlb.Flappy.Hub.Phase.{IsOver, broadcast_phase, maybe_snapshot_phase, finish_race-IsOver}
use hmlb.Flappy.Hub.Racing.{tick_next}
use hmlb.Flappy.Hub.Ticks.{after, tick_total}
use hmlb.Flappy.Wire.{RaceState, waiting, countdown, racing, finished}
use hmlb.Flappy.World.Defs.{World, alive}
use hmlb.Flappy.World.Ticks.{step-IsTick}

module _ {A : Type 0} ⦃f : Float A⦄ where
  -- The ticks at those times do not fault, and after one of them, or at the start, the race is over.
  abbrev pub EndsWithin : List (ℕ × ℕ) → Hub A → Type 0
  EndsWithin [] h = IsHub h × IsOver h.st
  EndsWithin ((now, sent) ∷ times) h =
      (IsHub h × IsOver h.st) ⊎ ((h' : Hub A) × (tick now sent h ≡ some h') × EndsWithin times h')

  ended : (times : List (ℕ × ℕ)) (h : Hub A) → IsHub h → IsOver h.st → EndsWithin times h
  ended [] h ok over = (ok, over)
  ended ((now, sent) ∷ times) h ok over = inl (ok, over)

  settle_goes_on :
      (now sent : ℕ) (v : World A) (h h' : Hub A)
      → h.st ≡ racing
      → settle now sent v h ≡ some h'
      → (h'.st ≡ racing) ⊎ IsOver h'.st
  unfolding settle
  settle_goes_on now sent v h h' e runs =
      let h₁ = record h { pending_flaps = []; world = some v } in
      elim (Bool-cases (nat_beq (alive v) 0 || leb max_race_ticks v.tick)) [
        | inl over ↦ inr (finish_race-IsOver now sent h₁ h' (rw (over, settle) at runs))
        | inr on ↦
            let (st, _) = maybe_snapshot_phase now sent h₁ h' (rw (on, settle) at runs) in
            inl (st ∙ e)
      ]

  tick_in_goes_on :
      FloatLaws f
      → (st : RaceState) (now sent : ℕ) (h h' : Hub A) → st ≡ racing
      → h.st ≡ racing
      → IsRace st h.world h.order h.players
      → tick_in st now sent h ≡ some h'
      → (h'.st ≡ racing) ⊎ IsOver h'.st
  unfolding tick_in
  tick_in_goes_on laws waiting now sent h h' e e' race runs = cc
  tick_in_goes_on laws countdown now sent h h' e e' race runs = cc
  tick_in_goes_on laws finished now sent h h' e e' race runs = cc
  tick_in_goes_on laws racing now sent h h' e e' (w, known, sound, _, _) runs =
      let (v, steps, _, _) = step-IsTick laws h.pending_flaps w sound in
      settle_goes_on now sent v h h' e' (sym (after now sent h w v known steps) ∙ runs)

  -- A tick of a race leaves it racing, or ends it.
  pub tick_goes_on :
      FloatLaws f
      → (now sent : ℕ) (h h' : Hub A) → IsHub h
      → h.st ≡ racing
      → tick now sent h ≡ some h'
      → (h'.st ≡ racing) ⊎ IsOver h'.st
  unfolding tick
  tick_goes_on laws now sent h h' ok e runs =
      tick_in_goes_on laws h.st now sent h h' e e ok.race runs

  -- A race whose clock shows less than the most it may is over once the rest has passed.
  race_ends :
      FloatLaws f
      → (times : List (ℕ × ℕ)) (h : Hub A) → IsHub h
      → h.st ≡ racing
      → race_tick h.world < max_race_ticks
      → max_race_ticks ≤ race_tick h.world + length times
      → EndsWithin times h
  unfolding u64
  race_ends laws [] h ok e less enough = absurd (omega arith)
  race_ends laws ((now, sent) ∷ times) h ok e less enough =
      let (h', runs, ok') = tick_total laws now sent h ok in
      inr (
        h',
        runs,
        elim (tick_goes_on laws now sent h h' ok e runs) [
          | inr over ↦ ended times h' ok' over
          | inl still ↦
              let (ticked, less') = tick_next laws now sent h h' ok e runs still in
              race_ends laws times h' ok' still less' (omega arith)
        ],
      )

  -- The first tick of a race brings its clock below the most it may show.
  race_starts :
      FloatLaws f
      → (times : List (ℕ × ℕ)) (h : Hub A) → IsHub h
      → h.st ≡ racing
      → suc max_race_ticks ≤ length times
      → EndsWithin times h
  race_starts laws [] h ok e enough = absurd (omega arith)
  race_starts laws ((now, sent) ∷ times) h ok e enough =
      let (h', runs, ok') = tick_total laws now sent h ok in
      inr (
        h',
        runs,
        elim (tick_goes_on laws now sent h h' ok e runs) [
          | inr over ↦ ended times h' ok' over
          | inl still ↦
              let (_, less) = tick_next laws now sent h h' ok e runs still in
              race_ends laws times h' ok' still less (omega arith)
        ],
      )

  tick_in_go :
      (st : RaceState) (now sent : ℕ) (h h' : Hub A)
      → st ≡ countdown
      → h.go_at ≤ now
      → tick_in st now sent h ≡ some h'
      → h'.st ≡ racing
  unfolding tick_in tick_countdown
  tick_in_go waiting now sent h h' e due runs = cc
  tick_in_go racing now sent h h' e due runs = cc
  tick_in_go finished now sent h h' e due runs = cc
  tick_in_go countdown now sent h h' e due runs =
      let go : leb h.go_at now ≡ true = ground arith in
      let (st, _) =
        broadcast_phase sent (record h { st = racing }) h' (rw (go, tick_countdown) at runs) in
      st

  -- With the float laws, if the countdown of a hub with the invariant is due, the next tick starts
  -- the race, and the race is over within `MaxRaceTicks` and one more ticks, none of which faults.
  pub countdown_ends :
      FloatLaws f
      → (now sent : ℕ) (times : List (ℕ × ℕ)) (h : Hub A) → IsHub h
      → h.st ≡ countdown
      → h.go_at ≤ now
      → suc max_race_ticks ≤ length times
      → (h' : Hub A) × (tick now sent h ≡ some h') × (h'.st ≡ racing) × EndsWithin times h'
  unfolding tick
  countdown_ends laws now sent times h ok e due enough =
      let (h', runs, ok') = tick_total laws now sent h ok in
      let go = tick_in_go h.st now sent h h' e due runs in
      (h', runs, go, race_starts laws times h' ok' go enough)
