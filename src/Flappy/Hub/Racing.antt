-- ===== src/Flappy/Hub/Racing.antt =====
-- No race goes on for ever: in a run of events in which the hub races throughout, the clock ticks at
-- most as often as a race may last.
use mathlib.Core.Path.{subst}
use hmlb.Prelude.{
  ℕ, ◌+◌, ◌<◌, ◌≤◌, ◌≡◌, ◌⊎◌, refl, sym, ap, ◌∙◌, Bool, ◌||◌, [], some, nat_eq, arith, inl, inr,
  Bool-cases, leb, nat_beq,
}
use hmlb.Prelude.Options.{>>=-eq-some}
use hmlb.Prelude.Words.{u64}
use hmlb.Flappy.Const.{max_race_ticks}
use hmlb.Flappy.Float.{Float, FloatLaws}
use hmlb.Flappy.Hub.Defs.{Hub}
use hmlb.Flappy.Hub.Events.{Event, connect, join, flap, leave, ticker, dispatch}
use hmlb.Flappy.Hub.Handlers.{handle_join, settle, tick_in, tick}
use hmlb.Flappy.Hub.Duration.{race_tick, handle_join_tick, handle_leave_tick, handle_flap_phase}
use hmlb.Flappy.Hub.Invariant.{IsRace, IsHub}
use hmlb.Flappy.Hub.Phase.{some_injective, maybe_snapshot_phase, finish_race-ne-racing}
use hmlb.Flappy.Hub.Safety.{IsAllowed, dispatch_total}
use hmlb.Flappy.Hub.Ticks.{after}
use hmlb.Flappy.Wire.{RaceState, waiting, countdown, racing, finished}
use hmlb.Flappy.World.Defs.{World, alive}
use hmlb.Flappy.World.Ticks.{step-IsTick}

abbrev pub ticks : Event → ℕ
ticks (connect c) = 0
ticks (join now sent c name) = 0
ticks (flap now id) = 0
ticks (leave now sent c id) = 0
ticks (ticker now sent) = 1

module _ {A : Type 0} ⦃f : Float A⦄ where
  -- One more tick has passed, and the race's end has not come.
  abbrev pub NextTick : Hub A → Hub A → Type 0
  NextTick h h' =
      (race_tick h'.world ≡ u64 (race_tick h.world + 1)) × (race_tick h'.world < max_race_ticks)

  settle_tick :
      (now sent : ℕ) (v : World A) (h h' : Hub A)
      → h'.st ≡ racing
      → settle now sent v h ≡ some h'
      → (race_tick h'.world ≡ v.tick) × (v.tick < max_race_ticks)
  unfolding settle
  settle_tick now sent v h h' still runs =
      let h₁ = record h { pending_flaps = []; world = some v } in
      elim (Bool-cases (nat_beq (alive v) 0 || leb max_race_ticks v.tick)) [
        | inl over ↦ absurd (finish_race-ne-racing now sent h₁ h' (rw (over, settle) at runs) still)
        | inr on ↦
            let (_, world) = maybe_snapshot_phase now sent h₁ h' (rw (on, settle) at runs) in
            (ap race_tick world, ground arith)
      ]

  tick_in_next :
      FloatLaws f
      → (st : RaceState) (now sent : ℕ) (h h' : Hub A) → st ≡ racing
      → IsRace st h.world h.order h.players
      → tick_in st now sent h ≡ some h'
      → h'.st ≡ racing
      → NextTick h h'
  unfolding tick_in
  tick_in_next laws waiting now sent h h' e race runs still = cc
  tick_in_next laws countdown now sent h h' e race runs still = cc
  tick_in_next laws finished now sent h h' e race runs still = cc
  tick_in_next laws racing now sent h h' e (w, known, sound, _, _) runs still =
      let (v, steps, _, (_, ticked, _)) = step-IsTick laws h.pending_flaps w sound in
      let (same, less) =
        settle_tick now sent v h h' still (sym (after now sent h w v known steps) ∙ runs) in
      (
        same ∙ ticked ∙ ap (λ o. u64 (race_tick o + 1)) (sym known),
        subst (λ t. t < max_race_ticks) (sym same) less,
      )

  pub tick_next :
      FloatLaws f
      → (now sent : ℕ) (h h' : Hub A) → IsHub h
      → h.st ≡ racing
      → tick now sent h ≡ some h'
      → h'.st ≡ racing
      → NextTick h h'
  unfolding tick
  tick_next laws now sent h h' ok e runs still =
      tick_in_next laws h.st now sent h h' e ok.race runs still

  -- What an event does to the race's clock.
  abbrev pub Passes : Event → Hub A → Hub A → Type 0
  Passes (connect c) h h' = race_tick h'.world ≡ race_tick h.world
  Passes (join now sent c name) h h' = race_tick h'.world ≡ race_tick h.world
  Passes (flap now id) h h' = race_tick h'.world ≡ race_tick h.world
  Passes (leave now sent c id) h h' = race_tick h'.world ≡ race_tick h.world
  Passes (ticker now sent) h h' = NextTick h h'

  dispatch-Passes :
      FloatLaws f
      → (is_print : ℕ → Bool) (e : Event) (h h' : Hub A) → IsHub h
      → h.st ≡ racing
      → dispatch is_print e h ≡ some h'
      → h'.st ≡ racing
      → Passes e h h'
  unfolding dispatch
  dispatch-Passes laws is_print (connect c) h h' ok e runs still =
      ap (λ (x : Hub A). race_tick x.world) (sym (some_injective runs))
  dispatch-Passes laws is_print (join now sent c name) h h' ok e runs still =
      let (r, joins, done) = >>=-eq-some (handle_join is_print now sent c name h) _ runs in
      ap (λ (x : Hub A). race_tick x.world) (sym (some_injective done))
      ∙ handle_join_tick is_print now sent c name h r e joins
  dispatch-Passes laws is_print (flap now id) h h' ok e runs still =
      ap race_tick (handle_flap_phase now id h h' runs).1
  dispatch-Passes laws is_print (leave now sent c id) h h' ok e runs still =
      handle_leave_tick now sent c id h h' e runs still
  dispatch-Passes laws is_print (ticker now sent) h h' ok e runs still =
      tick_next laws now sent h h' ok e runs still

  -- The runs of events from a hub in which it races throughout, with the number of ticks in each.
  pub data Races (is_print : ℕ → Bool) (h : Hub A) : ℕ → Hub A → Type 0 where
    start : h.st ≡ racing → Races is_print h 0 h
    event :
        {n : ℕ} {g g' : Hub A} (e : Event)
        → Races is_print h n g
        → IsAllowed e g
        → dispatch is_print e g ≡ some g'
        → g'.st ≡ racing
        → Races is_print h (ticks e + n) g'

  -- After `n` ticks the race's own clock shows at least all but the first of them.
  abbrev pub Counted : ℕ → Hub A → Type 0
  Counted n g = (n ≡ 0) ⊎ ((n ≤ race_tick g.world + 1) × (race_tick g.world < max_race_ticks))

  Counted-Passes :
      (n : ℕ) (e : Event) (g g' : Hub A) → Counted n g → Passes e g g' → Counted (ticks e + n) g'
  unfolding u64
  Counted-Passes n (connect c) g g' have p = ground arith
  Counted-Passes n (join now sent c name) g g' have p = ground arith
  Counted-Passes n (flap now id) g g' have p = ground arith
  Counted-Passes n (leave now sent c id) g g' have p = ground arith
  Counted-Passes n (ticker now sent) g g' (inl none_yet) p = inr (omega arith, p.1)
  Counted-Passes n (ticker now sent) g g' (inr (few, less)) p = inr (omega arith, p.1)

  Races-Counted :
      FloatLaws f
      → {is_print : ℕ → Bool} {h g : Hub A} {n : ℕ} → IsHub h
      → Races is_print h n g
      → IsHub g × (g.st ≡ racing) × Counted n g
  Races-Counted laws ok (start e) = (ok, e, inl refl)
  Races-Counted laws {is_print} ok (event {n = n} {g = g} {g' = g'} e r allowed runs still) =
      let (ok_g, st, have) = Races-Counted laws ok r in
      let (g₁, runs', ok₁) = dispatch_total laws is_print e g ok_g allowed in
      let same : g₁ ≡ g' = some_injective (sym runs' ∙ runs) in
      (
        subst IsHub same ok₁,
        still,
        Counted-Passes n e g g' have (dispatch-Passes laws is_print e g g' ok_g st runs still),
      )

  -- With the float laws, whatever events come and in whatever order, if they are allowed and the
  -- hub races throughout, at most `MaxRaceTicks` of them are ticks.
  pub Races-le-max :
      FloatLaws f
      → (is_print : ℕ → Bool) (h g : Hub A) (n : ℕ) → IsHub h
      → Races is_print h n g
      → n ≤ max_race_ticks
  Races-le-max laws is_print h g n ok r = let (_, _, have) = Races-Counted laws ok r in ground arith
