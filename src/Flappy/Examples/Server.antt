-- ===== src/Flappy/Examples/Server.antt =====
-- The theorem of the server on a connection that has just been opened and that joins.
use hmlb.Prelude.{ℕ, ◌≡◌, refl, Bool, false, [], some, none, text, leb, nat_eq, arith}
use hmlb.Prelude.Int.{ℤ}
use hmlb.Prelude.Maps.{insert}
use hmlb.Flappy.Conn.{new_client_conn}
use hmlb.Flappy.Fixed.{fixed, fixed_laws}
use hmlb.Flappy.Hub.Defs.{Config, new_hub}
use hmlb.Flappy.Rng.{new_rng}
use hmlb.Flappy.Server.{Server, Moment, Action, opens, receives, decoded, joining, placed, act}
use hmlb.Flappy.Server.Link.{IsServer}
use hmlb.Flappy.Server.Runs.{new_server, Reached, start, more, Reached-total}
use hmlb.Flappy.Store.Defs.{Store, fresh_db, absent}

abbrev printable : ℕ → Bool
printable c = leb 32 c

abbrev a_store : Store
a_store = record {
  db = fresh_db;
  api = (none, []);
  disk = record { file = absent; tmp = absent };
  faults = [];
}

abbrev a_config : Config
a_config = record { countdown_ms = 0; results_ms = 0; snapshot_hz = 0; max_players = 0 }

abbrev a_server : Server ℤ
a_server = new_server a_config a_store (new_rng 5)

-- The server with connection 7 open.
abbrev opened : Server ℤ
opened =
    placed printable 7 joining
      (record a_server.hub { conns = insert 7 new_client_conn a_server.hub.conns }) a_server

abbrev a_moment : Moment
a_moment = record { now = 100; sent = 101; lost = false }

abbrev a_join : Action
a_join = receives 7 (decoded (record { t = 1; name = text "ann" })) a_moment a_moment

opened-Reached : Reached printable opened
unfolding act new_hub
opened-Reached = more (opens 7) (start a_config a_store (new_rng 5)) (omega arith) refl

Reached-total_example :
    (s' : Server ℤ) × (act printable a_join opened ≡ some s') × Reached printable s' × IsServer s'
unfolding new_hub
Reached-total_example =
    Reached-total fixed_laws printable a_join opened opened-Reached (omega arith)
