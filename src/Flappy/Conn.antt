-- ===== src/Flappy/Conn.antt =====
-- internal/server/client.go: the send queue of a connection. `none` is the panic of a send on a
-- closed channel.
pub mod Queue
use hmlb.Prelude.{
  ℕ, zero, suc, Bool, true, false, List, [], ◌∷◌, ◌++◌, Option, none, some, ltb, length, drop,
  if◌then◌else◌, ◌>>=◌, nat_eq,
}
use hmlb.Prelude.Maps.{Map, lookup, insert}
use hmlb.Flappy.Wire.{Frame}

pub record Conn (A : Type 0) : Type 0 where
  pub send : List (Frame A)
  pub closed : Bool

abbrev pub send_queue_len : ℕ
send_queue_len = 64

module _ {A : Type 0} where
  abbrev pub new_client_conn : Conn A
  new_client_conn = record { send = []; closed = false }

  -- The `for` of `enqueue`: a full queue loses its oldest frame, and the send is tried again.
  unfoldable pub enqueue_loop : ℕ → Frame A → List (Frame A) → Option (List (Frame A))
  enqueue_loop zero b q = none
  enqueue_loop (suc fuel) b q =
      let again = enqueue_loop fuel b (drop 1 q) in
      if ltb (length q) send_queue_len then some (q ++ b ∷ []) else again

  unfoldable pub enqueue : Frame A → Conn A → Option (Conn A)
  unfolding enqueue_loop
  enqueue b c = elim c.closed [
    | true ↦ none
    | false ↦ do q ← enqueue_loop (suc (length c.send)) b c.send; some (record c { send = q })
  ]

  unfoldable pub close : Conn A → Conn A
  close c = record c { closed = true }

  -- A connection is reached through a pointer, here a number.
  unfoldable pub enqueue_to : ℕ → Frame A → Map ℕ (Conn A) → Option (Map ℕ (Conn A))
  enqueue_to i b conns = do c ← lookup i conns; c' ← enqueue b c; some (insert i c' conns)

  unfoldable pub close_at : ℕ → Map ℕ (Conn A) → Option (Map ℕ (Conn A))
  close_at i conns = do c ← lookup i conns; some (insert i (close c) conns)
