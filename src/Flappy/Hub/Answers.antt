-- ===== src/Flappy/Hub/Answers.antt =====
-- What a join is answered with, and what it leaves of the hub.
use hmlb.Prelude.{ℕ, ◌+◌, ◌<◌, ◌^◌, ◌≡◌, ◌≢◌, Bool, some, Text, nat_eq, text_eq}
use hmlb.Flappy.Float.{Float}
use hmlb.Flappy.Hub.Arrivals.{Seats, handle_join-Seats}
use hmlb.Flappy.Hub.Bystander.{Spares}
use hmlb.Flappy.Hub.Defs.{Hub}
use hmlb.Flappy.Hub.Handlers.{handle_join}
use hmlb.Flappy.Hub.Invariant.{IsOpen, IsHub}
use hmlb.Flappy.Hub.Join.{reply_to, handle_join_total}
use hmlb.Flappy.Hub.Wiring.{IsUnused}

-- While ids are not used up, a join on an open connection that no player has is answered: with
-- "server full" if as many play as may, else with the next id if the name is valid, and with
-- "invalid name" if not. With an id a player of that id has the connection; else the connection is
-- known and no player has it, still. Every other connection is spared: it stays open if it is,
-- unused if it is, and with its player if it has one. The invariant is kept.
pub handle_join_answers :
    {A : Type 0}
    → ⦃f : Float A⦄ → (is_print : ℕ → Bool) (now sent c d : ℕ) (name : Text) (h : Hub A) → IsHub h
    → h.next_id + 1 < 2 ^ 64
    → IsOpen h.conns c
    → IsUnused h.players c
    → d ≢ c
    → (h' : Hub A) × (handle_join is_print now sent c name h ≡ some (h', reply_to is_print name h))
      × IsHub h'
      × Seats c (reply_to is_print name h) h'
      × Spares d h h'
handle_join_answers is_print now sent c d name h ok room open_c unused other =
    let reply = reply_to is_print name h in
    let (h', runs, ok') = handle_join_total is_print now sent c name h ok room open_c unused in
    let (spares, seats) =
      handle_join-Seats is_print now sent c d name h (h', reply) ok room unused runs in
    (h', runs, ok', seats, spares other)
