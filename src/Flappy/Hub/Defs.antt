-- ===== src/Flappy/Hub/Defs.antt =====
-- internal/server/hub.go and session.go: the state of the hub, and the helpers of its handlers. A
-- reading of the wall clock is an argument: `now` is the one at the start of a handler, `sent` the one
-- that `broadcast` makes. `none` is a panic.
use hmlb.Prelude.{
  ℕ, zero, suc, ◌+◌, ◌/◌, ◌%◌, Bool, true, false, not, List, [], ◌++◌, Option, none, some, Text,
  text, nat_beq, length, if◌then◌else◌, ◌==◌, nat_eq, text_eq, any, from_option,
}
use hmlb.Prelude.Decimal.{decimal}
use hmlb.Prelude.Maps.{Map, lookup, values}
use hmlb.Flappy.Birds.{Bird, bird_eq}
use hmlb.Flappy.Conn.{Conn}
use hmlb.Flappy.Const.{default_snapshot_hz, default_max_players}
use hmlb.Flappy.Rng.{Rng, next}
use hmlb.Flappy.Store.Defs.{Store}
use hmlb.Flappy.Theme.{Theme, theme_count}
use hmlb.Flappy.Wire.{RaceState, waiting, countdown, racing, finished, ResultSnap}
use hmlb.Flappy.World.Defs.{World}

pub record Session : Type 0 where
  pub id : ℕ
  pub name : Text
  pub bird : Bird
  pub conn : ℕ
  pub flap_sec : ℕ
  pub flap_count : ℕ

pub record RaceInfo : Type 0 where
  pub name : Text
  pub bird : Bird

-- Durations in milliseconds; a rate or a limit of 0 stands for the default.
pub record Config : Type 0 where
  pub countdown_ms : ℕ
  pub results_ms : ℕ
  pub snapshot_hz : ℕ
  pub max_players : ℕ

pub record Hub (A : Type 0) : Type 0 where
  pub cfg : Config
  pub store : Store
  pub rng : Rng
  pub players : Map ℕ Session
  -- sessions that have left: their goroutines may still hold the pointer
  pub gone : Map ℕ Session
  pub conns : Map ℕ (Conn A)
  pub order : List ℕ
  pub names : Map Text ℕ
  pub next_id : ℕ
  pub st : RaceState
  pub go_at : ℕ
  pub finish_at : ℕ
  pub last_snap : ℕ
  pub world : Option (World A)
  pub race_info : Map ℕ RaceInfo
  pub results : List ResultSnap
  pub theme : Theme
  pub seed : ℕ
  pub last_theme : Theme
  pub pending_flaps : Map ℕ (Unit {0})
  pub snapshot_every : ℕ
  pub max_players : ℕ

abbrev defaulted : ℕ → ℕ → ℕ
defaulted zero d = d
defaulted (suc n) d = suc n

abbrev interval : ℕ → ℕ
interval zero = 1000 / default_snapshot_hz
interval (suc n) = 1000 / suc n

unfoldable pub new_hub : {A : Type 0} → Config → Store → Rng → Hub A
new_hub cfg store rng = record {
  cfg = record cfg {
    countdown_ms = defaulted cfg.countdown_ms 3000;
    results_ms = defaulted cfg.results_ms 6000;
  };
  store = store;
  rng = rng;
  players = [];
  gone = [];
  conns = [];
  order = [];
  names = [];
  next_id = 0;
  st = waiting;
  go_at = 0;
  finish_at = 0;
  last_snap = 0;
  world = none;
  race_info = [];
  results = [];
  theme = 0;
  seed = 0;
  last_theme = 0;
  pending_flaps = [];
  snapshot_every = interval cfg.snapshot_hz;
  max_players = defaulted cfg.max_players default_max_players;
}

abbrev pub is_waiting : RaceState → Bool
is_waiting waiting = true
is_waiting countdown = false
is_waiting racing = false
is_waiting finished = false

abbrev pub is_finished : RaceState → Bool
is_finished waiting = false
is_finished countdown = false
is_finished racing = false
is_finished finished = true

abbrev pub is_racing : RaceState → Bool
is_racing waiting = false
is_racing countdown = false
is_racing racing = true
is_racing finished = false

-- `h.names[name] != 0`
unfoldable pub name_taken : Map Text ℕ → Text → Bool
name_taken names name = not (nat_beq (from_option 0 (lookup name names)) 0)

-- The loop of `uniqueName`: the name as it is, then with 2, 3, … behind it.
unfoldable pub unique_from : ℕ → Map Text ℕ → Text → ℕ → Text → Option Text
unique_from zero names base n name = none
unique_from (suc fuel) names base n name = elim (name_taken names name) [
  | true ↦ unique_from fuel names base (n + 1) (base ++ (text " " ++ decimal n))
  | false ↦ some name
]

unfoldable pub unique_name : Map Text ℕ → Text → Option Text
unfolding unique_from
unique_name names base = unique_from (suc (length names)) names base 2 base

-- `pickTheme`
unfoldable pub pick_theme : Theme → Rng → Theme × Rng
pick_theme last r =
    let (raw, r') = next r in
    let t = raw % theme_count in (if t == last then (t + 1) % theme_count else t, r')

unfoldable pub bird_taken : Map ℕ Session → Bird → Bool
bird_taken players b = any (λ s. s.bird == b) (values players)
