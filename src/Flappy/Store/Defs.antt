-- ===== src/Flappy/Store/Defs.antt =====
-- internal/server/store.go. JSON is not modelled: a file holds the value that was marshalled. A map
-- is iterated in the order of its association list. Times are milliseconds, `none` the zero time.
use hmlb.Prelude.{
  ℕ, ◌+◌, Bool, true, false, List, [], ◌∷◌, Option, none, some, Text, ltb, nat_beq, if◌then◌else◌,
  text_eq, take, from_option, not,
}
use hmlb.Prelude.Maps.{Map, lookup, insert}
use hmlb.Prelude.Sort.{sort_stable}
use hmlb.Flappy.Birds.{Bird, no_bird, valid}
use hmlb.Flappy.Const.{max_top_entries}
use hmlb.Flappy.Theme.{Theme, theme_string}
use hmlb.Flappy.Wire.{TopEntry}

pub record PlayerStat : Type 0 where
  pub best : ℕ
  pub best_theme : Text
  pub best_at : Option ℕ
  pub races : ℕ
  pub wins : ℕ
  pub bird : Bird

abbrev pub no_stat : PlayerStat
no_stat = record { best = 0; best_theme = []; best_at = none; races = 0; wins = 0; bird = no_bird }

pub record StateDb : Type 0 where
  pub updated : Option ℕ
  pub top : List TopEntry
  pub players : Map Text PlayerStat

abbrev pub fresh_db : StateDb
fresh_db = record { updated = none; top = []; players = [] }

-- What a read of a file finds.
pub data Contents : Type 0 where
  absent unreadable torn : Contents
  whole : StateDb → Contents

-- The state file and its temporary neighbour.
pub record Disk : Type 0 where
  pub file : Contents
  pub tmp : Contents

-- Which of the calls of `save` fails, if any.
pub data SaveFault : Type 0 where
  no_fault mkdir_fails write_fails rename_fails : SaveFault

pub record Store : Type 0 where
  pub db : StateDb
  pub api : Option ℕ × List TopEntry
  pub disk : Disk
  -- the outcome of each save to come; past its end no save fails
  pub faults : List SaveFault

unfoldable pub refresh_api : Store → Store
refresh_api s = record s { api = (s.db.updated, s.db.top) }

-- `OpenStore`: the store, and whether an error is returned with it.
unfoldable pub open_store : Disk → List SaveFault → Store × Bool
unfolding refresh_api
open_store d faults = elim d.file [
  | absent ↦ (refresh_api (start fresh_db), false)
  | unreadable ↦ (refresh_api (start fresh_db), true)
  | torn ↦ (refresh_api (start fresh_db), true)
  | whole db ↦ (refresh_api (start db), false)
]
  where
    start : StateDb → Store
    start db = record { db = db; api = (none, []); disk = d; faults = faults }

-- `APIBytes`
unfoldable pub api_bytes : Store → Option ℕ × List TopEntry
api_bytes s = s.api

abbrev pub bird_of : Option PlayerStat → Bird × Bool
bird_of none = (no_bird, false)
bird_of (some ps) = (ps.bird, valid ps.bird)

unfoldable pub lookup_bird : Text → Store → Bird × Bool
lookup_bird name s = bird_of (lookup name s.db.players)

-- The states that the disk goes through while `save` runs, the last one first.
unfoldable pub save_states : SaveFault → StateDb → Disk → List Disk
save_states mkdir_fails db d = d ∷ []
save_states write_fails db d = record d { tmp = torn } ∷ d ∷ []
save_states rename_fails db d = record d { tmp = whole db } ∷ record d { tmp = torn } ∷ d ∷ []
save_states no_fault db d =
    record { file = whole db; tmp = absent }
    ∷ record d { tmp = whole db }
    ∷ record d { tmp = torn }
    ∷ d
    ∷ []

unfoldable pub last_state : List Disk → Disk → Disk
last_state [] d = d
last_state (e ∷ ds) d = e

unfoldable pub save : SaveFault → StateDb → Disk → Disk
unfolding save_states last_state
save fault db d = last_state (save_states fault db d) d

unfoldable pub next_fault : List SaveFault → SaveFault × List SaveFault
next_fault [] = (no_fault, [])
next_fault (x ∷ xs) = (x, xs)

-- `persist`: the error of a failed save is logged and dropped.
unfoldable pub persist : Store → Store
unfolding save next_fault refresh_api
persist s =
    let (fault, later) = next_fault s.faults in
    refresh_api (record s { disk = save fault s.db s.disk; faults = later })

unfoldable pub remember_bird : Text → Bird → Store → Store
unfolding persist
remember_bird name bird s =
    let ps = from_option no_stat (lookup name s.db.players) in
    persist (record s {
      db = record s.db { players = insert name (record ps { bird = bird }) s.db.players };
    })

pub record RaceEntry : Type 0 where
  pub name : Text
  pub score : ℕ
  pub rank : ℕ
  pub bird : Bird

-- One finisher folded into what is remembered of the name.
unfoldable pub record_stat : Theme → ℕ → RaceEntry → PlayerStat → PlayerStat
record_stat theme at e ps =
    let better = ltb ps.best e.score in
    record ps {
      bird = e.bird;
      races = ps.races + 1;
      wins = if nat_beq e.rank 1 then ps.wins + 1 else ps.wins;
      best = if better then e.score else ps.best;
      best_theme = if better then theme_string theme else ps.best_theme;
      best_at = if better then some at else ps.best_at;
    }

unfoldable pub record_entries :
    Theme → ℕ → List RaceEntry → Map Text PlayerStat → Map Text PlayerStat
unfolding record_stat
record_entries theme at [] m = m
record_entries theme at (e ∷ es) m =
    record_entries theme at es
      (insert e.name (record_stat theme at e (from_option no_stat (lookup e.name m))) m)

-- Go's `<` on strings. Of valid UTF-8 the bytes and the code points are in the same order.
unfoldable pub text_lt : Text → Text → Bool
text_lt [] [] = false
text_lt [] (y ∷ ys) = true
text_lt (x ∷ xs) [] = false
text_lt (x ∷ xs) (y ∷ ys) = let rest = text_lt xs ys in if nat_beq x y then rest else ltb x y

unfoldable pub entry_less : TopEntry → TopEntry → Bool
entry_less a b =
    if not (nat_beq a.score b.score) then ltb b.score a.score else text_lt a.name b.name

unfoldable pub top_entry : Text → PlayerStat → TopEntry
top_entry name ps = record { name = name; score = ps.best; theme = ps.best_theme; at = ps.best_at }

unfoldable pub top_entries : Map Text PlayerStat → List TopEntry
top_entries [] = []
top_entries ((name, ps) ∷ m) =
    if nat_beq ps.best 0 then top_entries m else top_entry name ps ∷ top_entries m

unfoldable pub top_of : Map Text PlayerStat → List TopEntry
top_of m = take max_top_entries (sort_stable entry_less (top_entries m))

unfoldable pub rebuild_top : StateDb → StateDb
rebuild_top db = record db { top = top_of db.players }

unfoldable pub record_race : List RaceEntry → Theme → ℕ → Store → Store
unfolding rebuild_top persist
record_race entries theme at s =
    let db₁ = record s.db { players = record_entries theme at entries s.db.players } in
    let db₂ = rebuild_top db₁ in persist (record s { db = record db₂ { updated = some at } })
