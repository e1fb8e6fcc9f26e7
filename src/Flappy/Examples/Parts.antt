-- ===== src/Flappy/Examples/Parts.antt =====
-- The theorems of the store, of the queues and of the small parts on concrete inputs.
use hmlb.Prelude.{
  ℕ, ◌<◌, ◌≤◌, ◌≡◌, refl, false, List, [], ◌∷◌, ◌++◌, some, none, Text, text, nat_eq, text_eq,
  length, drop, take, keep,
}
use hmlb.Prelude.Int.{ℤ}
use hmlb.Prelude.All.{All}
use hmlb.Prelude.Sort.{IsOrdered}
use mathlib.Core.List.{Perm}
use hmlb.Flappy.Birds.{Bird, bird_eq}
use hmlb.Flappy.Conn.{enqueue, send_queue_len}
use hmlb.Flappy.Conn.Queue.{enqueue-drops_oldest}
use hmlb.Flappy.Const.{max_top_entries}
use hmlb.Flappy.Hub.Defs.{unique_name, name_taken}
use hmlb.Flappy.Hub.Names.{unique_name_total}
use hmlb.Flappy.Store.Defs.{
  fresh_db, absent, whole, Disk, no_fault, write_fails, Store, save_states, save, RaceEntry,
  record_race, api_bytes,
}
use hmlb.Flappy.Store.Saving.{IsIntact, save_atomic}
use hmlb.Flappy.Store.Board.{has_point, everyone, IsAbove, record_race_board}
use hmlb.Flappy.Wire.{Frame, error, TopEntry}

abbrev red : Bird
red = record { palette = 3; accessory = 1 }

abbrev a_disk : Disk
a_disk = record { file = absent; tmp = absent }

abbrev a_store : Store
a_store = record { db = fresh_db; api = (none, []); disk = a_disk; faults = no_fault ∷ [] }

abbrev a_race : List RaceEntry
a_race =
    record { name = text "ann"; score = 7; rank = 1; bird = red }
    ∷ record { name = text "bob"; score = 4; rank = 2; bird = red }
    ∷ []

abbrev a_frame : Frame ℤ
a_frame = error (text "bye")

save_atomic_example :
    All (IsIntact fresh_db a_disk) (save_states write_fails fresh_db a_disk)
    × ((save no_fault fresh_db a_disk).file ≡ whole fresh_db)
save_atomic_example = save_atomic write_fails fresh_db a_disk

record_race_board_example :
    (sorted : List TopEntry) × (api_bytes (record_race a_race 1 99 a_store)
      ≡ (some 99, take max_top_entries sorted))
    × Perm sorted (keep has_point (everyone (record_race a_race 1 99 a_store).db.players))
    × IsOrdered IsAbove sorted
record_race_board_example = record_race_board a_race 1 99 a_store

enqueue-drops_oldest_example :
    (k : ℕ) × (enqueue a_frame (record { send = a_frame ∷ []; closed = false })
      ≡ some (record { send = drop k (a_frame ∷ []) ++ a_frame ∷ []; closed = false }))
    × (length (drop k (a_frame ∷ []) ++ a_frame ∷ []) ≤ send_queue_len)
    × (length (a_frame ∷ []) < send_queue_len → k ≡ 0)
enqueue-drops_oldest_example =
    enqueue-drops_oldest a_frame (record { send = a_frame ∷ []; closed = false }) refl

unique_name_total_example :
    (r : Text) × (unique_name ((text "ann", 1) ∷ []) (text "ann") ≡ some r)
    × (name_taken ((text "ann", 1) ∷ []) r ≡ false)
    × (name_taken ((text "ann", 1) ∷ []) (text "ann") ≡ false → r ≡ text "ann")
unique_name_total_example = unique_name_total ((text "ann", 1) ∷ []) (text "ann")
