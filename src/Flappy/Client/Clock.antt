-- ===== src/Flappy/Client/Clock.antt =====
-- internal/client/clock.go: the estimate of the server's wall clock. Times are milliseconds.
use hmlb.Prelude.All.{All}
use hmlb.Prelude.{
  not, List, [], ◌∷◌, ap, ◌∙◌, length, ℕ, ◌+◌, ◌<◌, ◌≡◌, Bool, true, false, ltb, arith,
  if◌then◌else◌,
}
use hmlb.Prelude.Int.{ℤ, pos, ◌+ℤ◌, ◌-ℤ◌}
use hmlb.Flappy.Float.{Float}

-- `localMs` is an argument of the methods: what it returns when they call it.
pub record Clock (A : Type 0) : Type 0 where
  pub offset : A
  pub have : Bool
  pub jumps : ℕ

abbrev pub jumps_before_resync : ℕ
jumps_before_resync = 30

module _ {A : Type 0} ⦃f : Float A⦄ where
  abbrev pub ema_alpha : A
  ema_alpha = f.lit (pos 2) 1

  abbrev pub jump_reject_ms : A
  jump_reject_ms = f.lit (pos 250) 0

  abbrev pub new_clock : Clock A
  new_clock = record { offset = f.lit (pos 0) 0; have = false; jumps = 0 }

  unfoldable pub sample : ℤ → ℤ → Clock A → Clock A
  sample server local c =
      let o = f.lit (server -ℤ local) 0 in
      if not c.have
      then record c { offset = o; have = true }
      else if f.lt jump_reject_ms (f.fabs (f.sub o c.offset))
      then if ltb (c.jumps + 1) jumps_before_resync
        then record c { jumps = c.jumps + 1 }
        else record c { offset = o; jumps = 0 }
      else record c { jumps = 0; offset = f.add c.offset (f.mul (f.sub o c.offset) ema_alpha) }

  unfoldable pub server_now : ℤ → Clock A → ℤ
  server_now local c = if not c.have then local else local +ℤ f.to_int (f.fround c.offset)

  -- Samples whose offsets are all that far from the estimate.
  abbrev pub IsRejected : A → ℤ × ℤ → Type 0
  IsRejected offset (server, local) =
      f.lt jump_reject_ms (f.fabs (f.sub (f.lit (server -ℤ local) 0) offset)) ≡ true

  abbrev pub samples : List (ℤ × ℤ) → Clock A → Clock A
  samples [] c = c
  samples ((server, local) ∷ ss) c = samples ss (sample server local c)

  -- Fewer rejected samples in a row than the limit leave the estimate as it is.
  rejected :
      (ss : List (ℤ × ℤ)) (c : Clock A)
      → c.have ≡ true
      → All (IsRejected c.offset) ss
      → c.jumps + length ss < jumps_before_resync
      → samples ss c ≡ record c { jumps = c.jumps + length ss }
  unfolding sample
  rejected [] c have all few = ground arith
  rejected ((server, local) ∷ ss) c have all few =
      let e : sample server local c ≡ record c { jumps = c.jumps + 1 } = ground (arith, all.0) in
      ap (samples ss) e
      ∙ rejected ss (record c { jumps = c.jumps + 1 }) have all.1 (omega arith)
      ∙ ap (λ j. record c { jumps = j }) (omega arith)

  -- A clock that has an estimate and no rejected sample keeps it over 29 samples that contradict
  -- it, and drops it for that of the thirtieth.
  pub sample-resync :
      (ss : List (ℤ × ℤ)) (server local : ℤ) (c : Clock A)
      → c.have ≡ true
      → c.jumps ≡ 0
      → All (IsRejected c.offset) ss
      → length ss ≡ 29
      → IsRejected c.offset (server, local)
      → ((samples ss c).offset ≡ c.offset)
        × (sample server local (samples ss c)
            ≡ record c { offset = f.lit (server -ℤ local) 0; jumps = 0 })
  unfolding sample
  sample-resync ss server local c have none_yet all many last =
      let e = rejected ss c have all (omega arith) in
      (ap (λ (k : Clock A). k.offset) e, ap (sample server local) e ∙ ground (arith, last))
