-- ===== src/Flappy/Hub/Events.antt =====
-- internal/server/hub.go: the event loop. The events of all connections and of the ticker come one by
-- one, in any order; `connect` is the HTTP handler that makes a connection before it sends a join.
use hmlb.Prelude.{ℕ, Bool, Option, some, Text, ◌>>=◌, nat_eq}
use hmlb.Prelude.Maps.{insert}
use hmlb.Flappy.Conn.{new_client_conn}
use hmlb.Flappy.Float.{Float}
use hmlb.Flappy.Hub.Defs.{Hub}
use hmlb.Flappy.Hub.Handlers.{handle_join, handle_flap, handle_leave, tick}

pub data Event : Type 0 where
  connect : ℕ → Event
  join : ℕ → ℕ → ℕ → Text → Event
  flap : ℕ → Option ℕ → Event
  leave : ℕ → ℕ → Option ℕ → Option ℕ → Event
  ticker : ℕ → ℕ → Event

module _ {A : Type 0} ⦃f : Float A⦄ (is_print : ℕ → Bool) where
  -- `dispatch`, and the cases of `Run` beside it.
  unfoldable pub dispatch : Event → Hub A → Option (Hub A)
  unfolding handle_join handle_flap handle_leave tick
  dispatch (connect c) h = some (record h { conns = insert c new_client_conn h.conns })
  dispatch (join now sent c name) h = do
    (h', reply) ← handle_join is_print now sent c name h
    some h'
  dispatch (flap now id) h = handle_flap now id h
  dispatch (leave now sent c id) h = handle_leave now sent c id h
  dispatch (ticker now sent) h = tick now sent h
