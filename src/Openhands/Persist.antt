-- ===== src/Openhands/Persist.antt =====
-- The mappings survive a restart, and a crash during a save.
use mathlib.Core.Path.{subst}
use hmlb.Prelude.{
  ◌≡◌, refl, Bool, false, ◌&&◌, List, [], ◌∷◌, Option, some, none, Text, text_eq, ◌==◌, leb, ◌⊎◌,
  inl, inr, Bool-cases, Option-cases, from_option,
}
use hmlb.Prelude.All.{All}
use hmlb.Prelude.Maps.{lookup, insert}
use hmlb.Http.{Request, Response, Sent, failed, answered}
use hmlb.Openhands.Store.{
  Entries, Disk, SaveFault, no_fault, mkdir_fails, marshal_fails, write_fails, rename_fails,
  ConvStore, load, new_store, is_empty, set_id, write_entry, save_store, save_steps, last_state,
  next_fault,
}
use hmlb.Openhands.Thread.{Runtime, extract_thread_key}
use hmlb.Openhands.Handler.{
  Upstream, conv_of, closed, do_forward, recall, remember, relay, healed, retried, forwarded,
  handle,
}
use hmlb.Openhands.Run.{Log, serve}
use hmlb.Openhands.Memory.{told, thread}

-- What a proxy that starts on a disk has in its store.
abbrev pub reopened : Text → Disk → Option Entries
reopened path d = (new_store path d []).entries

-- Whichever call of a save fails, and whenever the proxy dies in it, the proxy that starts next has
-- the mappings that the disk had before the save, or all of the saved ones.
pub save_steps-reopened :
    (fault : SaveFault) (m : Entries) (path : Text) (d : Disk)
    → is_empty path ≡ false
    → All
        (λ e. (reopened path e ≡ reopened path d) ⊎ (reopened path e ≡ some m))
        (save_steps fault m d)
unfolding save_steps new_store load
save_steps-reopened fault m [] d named = cc
save_steps-reopened no_fault m (c ∷ path) d named =
    (inr refl, (inl refl, (inl refl, (inl refl, tt))))
save_steps-reopened mkdir_fails m (c ∷ path) d named = (inl refl, tt)
save_steps-reopened marshal_fails m (c ∷ path) d named = (inl refl, tt)
save_steps-reopened write_fails m (c ∷ path) d named = (inl refl, (inl refl, tt))
save_steps-reopened rename_fails m (c ∷ path) d named = (inl refl, (inl refl, (inl refl, tt)))

-- The file has what the store has, and no save will fail.
pub record IsSynced (s : ConvStore) : Type 0 where
  pub named : is_empty s.path ≡ false
  pub faultless : s.faults ≡ []
  pub same : reopened s.path s.disk ≡ s.entries

pub new_store-IsSynced :
    (path : Text) (d : Disk) → is_empty path ≡ false → IsSynced (new_store path d [])
unfolding new_store load
new_store-IsSynced path d named = record { named = named; faultless = refl; same = refl }

save_store-IsSynced :
    (m : Entries) (path : Text) (d : Disk) (faults : List SaveFault)
    → is_empty path ≡ false
    → faults ≡ []
    → IsSynced (save_store m (record { entries = some m; path = path; disk = d; faults = faults }))
unfolding save_store save_steps last_state next_fault new_store load
save_store-IsSynced m [] d faults named e = cc
save_store-IsSynced m (c ∷ path) d (x ∷ xs) named e = cc
save_store-IsSynced m (c ∷ path) d [] named e = record {
  named = refl;
  faultless = refl;
  same = refl;
}

write_entry-IsSynced :
    (key id : Text) (o : Option Entries) (s t : ConvStore)
    → IsSynced s
    → write_entry key id o s ≡ some t
    → IsSynced t
unfolding write_entry
write_entry-IsSynced key id none s t ok e = cc
write_entry-IsSynced key id (some m) s t ok e =
    let m' = insert key id m in
    let saved : save_store m' (record s { entries = some m' }) ≡ t = cc e in
    subst IsSynced saved (save_store-IsSynced m' s.path s.disk s.faults ok.named ok.faultless)

set_id-IsSynced :
    (key id : Text) (s t : ConvStore) → IsSynced s → set_id key id s ≡ some t → IsSynced t
unfolding set_id
set_id-IsSynced [] id s t ok e = let same : s ≡ t = cc e in subst IsSynced same ok
set_id-IsSynced (c ∷ key) [] s t ok e = let same : s ≡ t = cc e in subst IsSynced same ok
set_id-IsSynced (c ∷ key) (d ∷ id) s t ok e =
    elim (Bool-cases (from_option [] (lookup (c ∷ key) (from_option [] s.entries)) == d ∷ id)) [
      | inl old ↦ let same : s ≡ t = cc (rw (old, set_id) at e) in subst IsSynced same ok
      | inr new ↦ write_entry-IsSynced (c ∷ key) (d ∷ id) s.entries s t ok (rw (new, set_id) at e)
    ]

module _ {S : Type 0} (rt : Runtime) (up : Upstream S) where
  remember-IsSynced :
      (key id : Text) (s t : ConvStore) → IsSynced s → remember rt up key id s ≡ some t → IsSynced t
  unfolding remember
  remember-IsSynced [] id s t ok e = let same : s ≡ t = cc e in subst IsSynced same ok
  remember-IsSynced (c ∷ key) [] s t ok e = let same : s ≡ t = cc e in subst IsSynced same ok
  remember-IsSynced (c ∷ key) (d ∷ id) s t ok e = set_id-IsSynced (c ∷ key) (d ∷ id) s t ok e

  relay-IsSynced :
      (key id : Text) (r : Response) (s : ConvStore) (st : S)
      → IsSynced s
      → IsSynced (relay rt up key id r s st).0
  unfolding relay
  relay-IsSynced key id r s st ok = elim (Option-cases (remember rt up key id s)) [
    | inl panics ↦ rw (panics, relay) ok
    | inr (t, kept) ↦ rw (kept, relay) (remember-IsSynced key id s t ok kept)
  ]

  forwarded-IsSynced :
      (key : Text) (had : Bool) (r : Request) (body : Text) (s : ConvStore) (sent : Sent) (st : S)
      → IsSynced s
      → IsSynced (forwarded rt up key had r body s sent st).0
  unfolding forwarded retried
  forwarded-IsSynced key had r body s (failed e) st ok = ok
  forwarded-IsSynced key had r body s (answered resp) st ok =
      elim (Bool-cases (had && leb 400 resp.status)) [
        | inr fine ↦ rw (fine, forwarded) (relay-IsSynced key (conv_of resp) resp s st ok)
        | inl stale ↦
            let again = do_forward rt up r body [] st in
            rw (stale, forwarded) (healed-IsSynced key resp again.0 s again.1 ok)
      ]
    where
      healed-IsSynced :
          (key : Text) (first : Response) (again : Sent) (s : ConvStore) (st : S)
          → IsSynced s
          → IsSynced (healed rt up key first again s st).0
      healed-IsSynced key first (failed e) s st ok =
          unfold healed in relay-IsSynced key (conv_of first) (closed first) s st ok
      healed-IsSynced key first (answered r) s st ok =
          unfold healed in relay-IsSynced key (conv_of r) r s st ok

  handle-IsSynced :
      (read_error : Text) (s : ConvStore) (r : Request) (st : S)
      → IsSynced s
      → IsSynced (handle rt up read_error s r st).0
  unfolding handle
  handle-IsSynced read_error s r st ok = elim (Option-cases r.body) [
    | inl unread ↦ rw (unread, handle) ok
    | inr (body, read) ↦
        let key = extract_thread_key rt body in
        let sent = do_forward rt up r body (recall rt up key s).0 st in
        rw (read, handle) (forwarded-IsSynced key (recall rt up key s).1 r body s sent.0 sent.1 ok)
  ]

  -- Where the file is the store's and no save fails, both are so after any requests: a proxy that
  -- starts on the disk that they have left has exactly the mappings of the proxy that served them.
  pub serve-reopened :
      (read_error : Text) (rs : List Request) (log : Log) (s : ConvStore) (st : S)
      → IsSynced s
      → IsSynced (serve rt up read_error rs log s st).1
  unfolding serve
  serve-reopened read_error [] log s st ok = ok
  serve-reopened read_error (r ∷ rs) log s st ok =
      let h = handle rt up read_error s r st in
      serve-reopened read_error rs ((thread rt up r, told h.1) ∷ log) h.0 h.2
        (handle-IsSynced read_error s r st ok)
