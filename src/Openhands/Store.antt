-- ===== src/Openhands/Store.antt =====
-- images/openwebui-openhands-proxy/main.go: the store of conversation ids. JSON is not modelled: a
-- file holds the value that was marshalled. `none` of `entries` is Go's nil map.
use hmlb.Prelude.{
  Bool, true, false, ◌||◌, List, [], ◌∷◌, Option, none, some, Text, text_eq, ◌==◌, if◌then◌else◌,
  from_option,
}
use hmlb.Prelude.Maps.{Map, lookup, insert}

abbrev pub Entries : Type 0
Entries = Map Text Text

-- What a read of a file finds: no file, an error, no JSON object of texts, `null`, or such an object.
pub data Contents : Type 0 where
  absent unreadable garbled null : Contents
  whole : Entries → Contents

-- The store's file and its temporary neighbour.
pub record Disk : Type 0 where
  pub file : Contents
  pub tmp : Contents

-- Which of the calls of `save_store` fails, if any.
pub data SaveFault : Type 0 where
  no_fault mkdir_fails marshal_fails write_fails rename_fails : SaveFault

pub record ConvStore : Type 0 where
  pub entries : Option Entries
  pub path : Text
  pub disk : Disk
  -- the outcome of each save to come; past its end no save fails
  pub faults : List SaveFault

abbrev pub is_empty : Text → Bool
is_empty [] = true
is_empty (c ∷ s) = false

-- `json.Unmarshal` of `null` is no error, and makes the map nil.
abbrev pub loaded : Contents → Option Entries
loaded absent = some []
loaded unreadable = some []
loaded garbled = some []
loaded null = none
loaded (whole m) = some m

-- No file has the empty name.
unfoldable pub load : ConvStore → ConvStore
load s = record s { entries = loaded (if is_empty s.path then absent else s.disk.file) }

unfoldable pub new_store : Text → Disk → List SaveFault → ConvStore
unfolding load
new_store path disk faults =
    load (record { entries = some []; path = path; disk = disk; faults = faults })

-- The states that the disk goes through while `save_store` runs, the last one first.
unfoldable pub save_steps : SaveFault → Entries → Disk → List Disk
save_steps mkdir_fails m d = d ∷ []
save_steps marshal_fails m d = d ∷ []
save_steps write_fails m d = record d { tmp = garbled } ∷ d ∷ []
save_steps rename_fails m d = record d { tmp = whole m } ∷ record d { tmp = garbled } ∷ d ∷ []
save_steps no_fault m d =
    record { file = whole m; tmp = absent }
    ∷ record d { tmp = whole m }
    ∷ record d { tmp = garbled }
    ∷ d
    ∷ []

unfoldable pub last_state : List Disk → Disk → Disk
last_state [] d = d
last_state (e ∷ ds) d = e

unfoldable pub next_fault : List SaveFault → SaveFault × List SaveFault
next_fault [] = (no_fault, [])
next_fault (x ∷ xs) = (x, xs)

unfoldable pub save_store : Entries → ConvStore → ConvStore
unfolding save_steps last_state next_fault
save_store m s =
    if is_empty s.path
    then s
    else let (fault, later) = next_fault s.faults in
      record s { disk = last_state (save_steps fault m s.disk) s.disk; faults = later }

unfoldable pub get : Text → ConvStore → Text × Bool
get key s = elim (lookup key (from_option [] s.entries)) [
  | none ↦ ([], false)
  | some id ↦ (id, true)
]

-- The write to the map, which panics if the map is nil: `none`.
unfoldable pub write_entry : Text → Text → Option Entries → ConvStore → Option ConvStore
unfolding save_store
write_entry key id none s = none
write_entry key id (some m) s =
    let m' = insert key id m in some (save_store m' (record s { entries = some m' }))

unfoldable pub set_id : Text → Text → ConvStore → Option ConvStore
unfolding write_entry
set_id key id s =
    if is_empty key || is_empty id
    then some s
    else if from_option [] (lookup key (from_option [] s.entries)) == id
    then some s
    else write_entry key id s.entries s
