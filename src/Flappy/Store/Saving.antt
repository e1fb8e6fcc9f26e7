-- ===== src/Flappy/Store/Saving.antt =====
-- A crash while the store saves never damages the state file.
use hmlb.Prelude.{◌≡◌, refl, ◌⊎◌, inl, inr, text_eq}
use hmlb.Prelude.All.{All}
use hmlb.Flappy.Store.Defs.{
  StateDb, whole, Disk, SaveFault, no_fault, mkdir_fails, write_fails, rename_fails, save_states,
  last_state, save,
}

-- The state file is the old one or the whole new one.
abbrev pub IsIntact : StateDb → Disk → Disk → Type 0
IsIntact db old d = (d.file ≡ old.file) ⊎ (d.file ≡ whole db)

-- Whichever call fails, every state that the disk goes through during a save has the old state file
-- or the whole new one; and when none fails, the last one has the new file.
pub save_atomic :
    (fault : SaveFault) (db : StateDb) (d : Disk)
    → All (IsIntact db d) (save_states fault db d) × ((save no_fault db d).file ≡ whole db)
unfolding save_states save last_state
save_atomic no_fault db d = ((inr refl, (inl refl, (inl refl, (inl refl, tt)))), refl)
save_atomic mkdir_fails db d = ((inl refl, tt), refl)
save_atomic write_fails db d = ((inl refl, (inl refl, tt)), refl)
save_atomic rename_fails db d = ((inl refl, (inl refl, (inl refl, tt))), refl)
