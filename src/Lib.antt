-- ===== src/Lib.antt =====
-- A verification library of the programs under images/: the multiplayer game flappy-race, the proxies
-- llamastack-proxy and openwebui-openhands-proxy, and the Mastodon announcements of blog-klimlive.
--
-- The program's parts and the files that model them:
-- - Prelude: lists, texts, Go maps as association lists, stable sorting, machine words, decimals, integers.
-- - Flappy.World (images/flappy-race/internal/game/world.go): the race simulation. `step` is
--   World.Step, with its three phases `fly`, `scroll_world` and `spawn_pipes`, and `land`. Flappy.Rng is
--   rng.go and Flappy.Rank is rank.go, whose Results is `results`.
-- - Flappy.Const, Birds, Theme, Name and Wire (internal/protocol): the constants, the birds and
--   themes, ValidateName, and the frames as values.
-- - Flappy.Hub (internal/server/hub.go): the owner of all game state. Defs has the record `Hub` with
--   the source's fields, Frames what the hub sends, Handlers one function per method (handleJoin is
--   `handle_join`, and so on), Events the event loop (`dispatch`). Invariant says what holds between two
--   events. Roster, Names, Wiring and Sending are about the players, their names and their connections;
--   Admission, Enter, Join and Answers about a join, Flap about a flap, Departure, LineUp, Flight and Leave about
--   a leave, Finish and Ticks about the clock. Safety puts them together for every order of the events
--   of all connections and of the ticker. Phase and Duration say what the handlers do to the state and
--   the clock of a race, Racing how long a race lasts in any order of events, and Liveness that it is
--   run and ends. Touch, Bystander, Seats, Arrivals and Departures say that an event leaves other
--   connections alone.
-- - Flappy.Server (internal/server/client.go, and join, flap, leave, submit and Run of hub.go): the
--   goroutines that read the connections (readPump is `receive`), beside the hub. Link says how they and
--   the hub agree, and Safety and Runs that no step of the whole server faults.
-- - Flappy.Conn (internal/server/client.go): the send queue of a connection.
-- - Flappy.Store (internal/server/store.go): the database, with the disk as the contents of its files.
-- - Flappy.Client (internal/client): the snapshot ring, the clock, the HUD, the name entry, and the
--   reconnecting game, frame by frame. Client.Net (net.go) has the channels of a connection, with readLoop
--   as `read_loop`; Delivery and Rejection say what the game gets of them.
--   Client.Labels (draw/text.go) is the cache of pre-rendered labels.
-- - Http: what the two proxies use of net/http, messages and headers.
-- - Llama (images/llamastack-proxy/main.go): Setup is `init`, Cache the cache of tools, Keywords and
--   Select choose the tools of a request, Convert rewrites them for OpenAI's clients, Chat runs the tool
--   loop, Completion is the handler around it (`prepare` is its part up to the loop), Admin has the start
--   of the cache and the operator's requests, Passing the handlers that pass a message on, and Serve the
--   routes of main and a run of the proxy. Sections says what such a run keeps; Blacklist, Routing, Rounds,
--   Order and Passing.Transparent hold the theorems.
-- - Mastodon (images/blog-klimlive/internal/mastodon): Post has the posts, Toot their toots,
--   and Sync announces them and writes the ids into their files.
-- - Openhands (images/openwebui-openhands-proxy/main.go): Store the mapping with its file (`save_store`
--   is save, `save_steps` the states of the disk in it), Thread the key of a chat thread, Handler
--   chatCompletionsHandler (`handle`; `forwarded`, `retried`, `healed` and `relay` are its tail). Memory
--   is its specification as a memory, Run a whole run, Persist restarts and crashes, Retry and Failure
--   the requests upstream and the errors.
--
-- How the parts interact: the hub calls the simulation, the store and the queues, and its connections
-- are numbers into a map, so that an alias is the same number; the client reads the frames that the hub
-- sends. A fault (a nil map entry, a send on a closed channel, an index out of range) is `none`, and the
-- theorems of the handlers show that it does not occur.
--
-- Durations are whole milliseconds: a Countdown or Results of less than one, which the source keeps as
-- it is, is 0 here, and so becomes the default in `new_hub`. JSON is not modelled: a store's file
-- holds the value that its JSON text stands for, or is torn.
--
-- float64 is a type with operations (Flappy.Float); the laws that a theorem needs are a record of
-- hypotheses, which Flappy.Fixed fulfils with fixed-point numbers. Integers are natural numbers where the
-- source's stay at 0 or above; ids and ticks wrap at 2 ^ 64. Readings of the wall clock, answers of other
-- services, the outcomes of file operations and the tables of Go's unicode package are arguments.
--
-- Fuel: the loop that spawns pipes has 16 rounds, of which the theorem on ticks shows that they are
-- enough, since a pipe that is kept stands right of -80 and each round goes 260 further; the queue's loop
-- has one round for each frame it holds and one more; the search for a free name has one round more than
-- there are names. The theorems on these functions show that the result is there.
--
-- Not modelled: JSON, HTTP connections and websockets, the drawing but for its labels, logging and
-- tracing, writePump and the hub's shutdown, and the clusters' manifests. A goroutine's step and the event
-- that it submits are one step. The requests to the two proxies are handled one after another, and the
-- reverse proxy of openwebui-openhands-proxy for other paths is left out.
pub mod Prelude
pub mod Http
pub mod Flappy
pub mod Llama
pub mod Mastodon
pub mod Openhands
