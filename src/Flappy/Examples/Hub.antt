-- ===== src/Flappy/Examples/Hub.antt =====
-- The theorems of the hub and of the race on a hub with one racer and one connection that has not joined yet.
use hmlb.Prelude.{
  ℕ, ◌<◌, ◌≡◌, refl, Bool, false, List, [], ◌∷◌, some, none, text, nat_eq, text_eq, arith, leb,
}
use hmlb.Prelude.Int.{ℤ}
use hmlb.Prelude.Maps.{Map, lookup, insert, delete, lookup-same_keys}
use hmlb.Flappy.Birds.{no_bird}
use hmlb.Flappy.Conn.{Conn, new_client_conn}
use hmlb.Flappy.Fixed.{fixed, fixed_laws}
use hmlb.Flappy.Rng.{new_rng}
use hmlb.Flappy.Wire.{racing}
use hmlb.Flappy.World.Defs.{BirdState, World, new_world, new_bird, alive}
use hmlb.Flappy.World.Total.{IsWorld}
use hmlb.Flappy.World.Racers.{alive_in_pos}
use hmlb.Flappy.World.Step.{step}
use hmlb.Flappy.World.Ticks.{IsTick, step-IsTick}
use mathlib.Core.Option
use mathlib.Core.List.{Perm}
use hmlb.Prelude.{map}
use hmlb.Prelude.All.{All}
use hmlb.Prelude.Sort.{IsOrdered}
use hmlb.Flappy.World.Pipes.{IsGap, step-IsGap}
use hmlb.Flappy.Rank.{Row, results}
use hmlb.Flappy.Rank.Podium.{flown, IsAhead, shown_line, shown_row, count_from, results-IsPodium}
use hmlb.Flappy.Wire.{ResultSnap}
use hmlb.Flappy.Hub.Defs.{RaceInfo}
use hmlb.Flappy.Hub.Admission.{begun, IsLineUp, begin_countdown_total}
use hmlb.Flappy.Hub.Finish.{finish_race_total}
use hmlb.Flappy.Hub.Sending.{Keeps}
use hmlb.Flappy.Store.Defs.{Store, fresh_db, absent}
use hmlb.Flappy.Hub.Defs.{Session, Hub, Config, new_hub, name_taken}
use hmlb.Flappy.Hub.Handlers.{
  new_session, handle_join, handle_leave, handle_flap, tick, begin_countdown, finish_race,
}
use hmlb.Flappy.Hub.Events.{connect, flap, ticker, dispatch}
use hmlb.Flappy.Hub.Invariant.{IsRoster, IsWired, IsOpen, IsHub}
use hmlb.Flappy.Hub.Roster.{enroll-IsRoster}
use hmlb.Flappy.Hub.Wiring.{IsUnused, enroll-IsWired}
use hmlb.Flappy.Hub.Join.{reply_to}
use hmlb.Flappy.Hub.Answers.{handle_join_answers}
use hmlb.Flappy.Hub.Arrivals.{Seats}
use hmlb.Flappy.Hub.Bystander.{Spares}
use hmlb.Flappy.Hub.Leave.{handle_leave_total}
use hmlb.Flappy.Hub.Flap.{Flaps, handle_flap_total}
use hmlb.Flappy.Hub.Safety.{Reach, dispatch_total, reach-IsHub}
use hmlb.Flappy.Hub.Racing.{start, event, Races-le-max}
use hmlb.Flappy.Hub.Liveness.{EndsWithin, countdown_ends}
use hmlb.Flappy.Const.{max_race_ticks}
use hmlb.Prelude.{zero, suc, ap, length, ◌≤◌}
use hmlb.Flappy.Wire.{countdown}

abbrev printable : ℕ → Bool
printable c = leb 32 c

abbrev a_store : Store
a_store = record {
  db = fresh_db;
  api = (none, []);
  disk = record { file = absent; tmp = absent };
  faults = [];
}

abbrev a_config : Config
a_config = record { countdown_ms = 0; results_ms = 0; snapshot_hz = 0; max_players = 0 }

abbrev ann : Session
ann = new_session 1 (text "ann") no_bird 10

abbrev conns : Map ℕ (Conn ℤ)
conns = (10, new_client_conn) ∷ (11, new_client_conn) ∷ []

abbrev racers : World ℤ
racers = record (new_world 7) { birds = (1, new_bird 1 (text "ann") 0 0) ∷ []; order = 1 ∷ [] }

abbrev a_hub : Hub ℤ
a_hub = record (new_hub a_config a_store (new_rng 5)) {
  players = (1, ann) ∷ [];
  conns = conns;
  order = 1 ∷ [];
  names = (text "ann", 1) ∷ [];
  next_id = 1;
  st = racing;
  world = some racers;
}

no-IsRoster : IsRoster [] [] [] 0
unfolding lookup
no-IsRoster = record {
  keyed = refl;
  distinct = tt;
  ids = λ k s e. cc;
  positive = λ k s e. cc;
  bounded = λ k s e. cc;
  paced = λ k s e. cc;
  named = λ k s e. cc;
}

ann-IsRoster : IsRoster ((1, ann) ∷ []) (1 ∷ []) ((text "ann", 1) ∷ []) 1
unfolding insert name_taken lookup
ann-IsRoster = enroll-IsRoster no-IsRoster ann (omega arith) refl (omega arith)

conn_10 : IsOpen conns 10
unfolding lookup
conn_10 = (new_client_conn, refl, refl)

conn_11 : IsOpen conns 11
unfolding lookup
conn_11 = (new_client_conn, refl, refl)

no_players-IsWired : IsWired [] conns
unfolding lookup
no_players-IsWired = record { open_conn = λ k s e. cc; injective = λ j k s t d e same. cc }

ann-IsWired : IsWired ((1, ann) ∷ []) conns
unfolding insert lookup
ann-IsWired = enroll-IsWired ann [] conns no_players-IsWired conn_10 (λ k s e same. cc)

racers-IsWorld : IsWorld racers
unfolding new_world
racers-IsWorld = record { keyed = refl; distinct = (tt, tt) }

racers_alive : 0 < alive racers
unfolding alive lookup new_bird
racers_alive = alive_in_pos 1 (new_bird 1 (text "ann") 0 0) racers.birds refl refl

a_hub-IsHub : IsHub a_hub
unfolding new_hub
a_hub-IsHub = record {
  roster = ann-IsRoster;
  wired = ann-IsWired;
  race = (
    racers,
    refl,
    racers-IsWorld,
    racers_alive,
    λ k b found flying. lookup-same_keys k b racers.birds ((1, ann) ∷ []) refl found,
  );
}

ann_here : lookup 1 a_hub.players ≡ some ann
unfolding lookup
ann_here = refl

conn_11-IsUnused : IsUnused ((1, ann) ∷ []) 11
unfolding lookup
conn_11-IsUnused k s e same = ground arith

dispatch_total_example :
    (h' : Hub ℤ) × (dispatch printable (ticker 100 101) a_hub ≡ some h') × IsHub h'
dispatch_total_example = dispatch_total fixed_laws printable (ticker 100 101) a_hub a_hub-IsHub tt

handle_join_answers_example :
    (h' : Hub ℤ) × (handle_join printable 100 101 11 (text "bob") a_hub
      ≡ some (h', reply_to printable (text "bob") a_hub))
    × IsHub h'
    × Seats 11 (reply_to printable (text "bob") a_hub) h'
    × Spares 10 a_hub h'
unfolding new_hub
handle_join_answers_example =
    handle_join_answers printable 100 101 11 10 (text "bob") a_hub a_hub-IsHub (omega arith) conn_11
      conn_11-IsUnused (omega arith)

handle_leave_total_example :
    (h' : Hub ℤ) × (handle_leave 100 101 (some 10) (some 1) a_hub ≡ some h')
    × IsHub h'
    × (h'.players ≡ delete 1 a_hub.players)
handle_leave_total_example = handle_leave_total 100 101 1 ann a_hub a_hub-IsHub ann_here

handle_flap_total_example :
    (h' : Hub ℤ) × (handle_flap 100 (some 1) a_hub ≡ some h')
    × IsHub h'
    × Flaps racing 0 1 ann a_hub h'
handle_flap_total_example = handle_flap_total 100 1 ann a_hub a_hub-IsHub ann_here

step-IsTick_example : (v : World ℤ) × (step [] racers ≡ some v) × IsWorld v × IsTick [] racers v
step-IsTick_example = step-IsTick fixed_laws [] racers racers-IsWorld

reach-IsHub_example :
    IsHub {A = ℤ}
      (record (new_hub a_config a_store (new_rng 5)) { conns = (3, new_client_conn) ∷ [] })
unfolding lookup new_hub dispatch insert
reach-IsHub_example =
    reach-IsHub fixed_laws printable
      (record (new_hub a_config a_store (new_rng 5)) { conns = (3, new_client_conn) ∷ [] })
      (Reach.next (connect 3) (Reach.start a_config a_store (new_rng 5)) refl refl)

begin_countdown_total_example :
    (w : World ℤ) × (info : Map ℕ RaceInfo) × (begin_countdown 100 a_hub
      ≡ some (begun 100 a_hub w info))
    × IsLineUp w a_hub.order
begin_countdown_total_example =
    begin_countdown_total 100 a_hub ann-IsRoster.keyed ann-IsRoster.distinct

finish_race_total_example : Keeps a_hub (finish_race 100 101 a_hub)
finish_race_total_example =
    finish_race_total 100 101 a_hub racers ann-IsRoster ann-IsWired refl racers-IsWorld

step-IsGap_example : (v : World ℤ) × (step [] racers ≡ some v) × All IsGap v.pipes
unfolding new_world
step-IsGap_example = step-IsGap fixed_laws [] racers racers-IsWorld tt

results-IsPodium_example :
    (rows sorted : List Row) × (res : List ResultSnap) × (results racers ≡ some res)
    × (map (λ id. Option.map flown (lookup id racers.birds)) racers.order ≡ map some rows)
    × Perm sorted rows
    × IsOrdered IsAhead sorted
    × (map shown_line res ≡ map shown_row sorted)
    × (map (λ (r : ResultSnap). r.rank) res ≡ count_from 1 sorted)
results-IsPodium_example = results-IsPodium racers racers-IsWorld

-- The ticks of a clock that is read only at the start.
ticks_of : ℕ → List (ℕ × ℕ)
ticks_of zero = []
ticks_of (suc n) = (100, 101) ∷ ticks_of n

length-ticks_of : (n : ℕ) → length (ticks_of n) ≡ n
unfolding ticks_of
length-ticks_of zero = refl
length-ticks_of (suc n) = ap suc (length-ticks_of n)

racers_fly : (k : ℕ) (b : BirdState ℤ) → lookup k racers.birds ≡ some b → b.dead ≡ false
unfolding lookup new_bird
racers_fly k b found = ground (arith, found)

abbrev a_lobby : Hub ℤ
a_lobby = record a_hub { st = countdown }

a_lobby-IsHub : IsHub a_lobby
unfolding new_hub new_world
a_lobby-IsHub = record {
  roster = ann-IsRoster;
  wired = ann-IsWired;
  race = (λ e. cc, (racers, refl, racers-IsWorld, refl, racers_fly));
}

countdown_ends_example :
    (h' : Hub ℤ) × (tick 100 101 a_lobby ≡ some h')
    × (h'.st ≡ racing)
    × EndsWithin (ticks_of (suc max_race_ticks)) h'
unfolding new_hub
countdown_ends_example =
    countdown_ends fixed_laws 100 101 (ticks_of (suc max_race_ticks)) a_lobby a_lobby-IsHub refl
      (omega arith) (omega (arith, length-ticks_of (suc max_race_ticks)))

Races-le-max_example : 0 ≤ max_race_ticks
unfolding dispatch
Races-le-max_example =
    Races-le-max fixed_laws printable a_hub a_hub 0 a_hub-IsHub
      (event (flap 100 none) (start refl) tt refl refl)
