-- ===== src/Flappy/Hub/Join.antt =====
-- A join never faults: it is refused, or the newcomer is enrolled and the race goes on.
use hmlb.Prelude.{
  ℕ, ◌+◌, ◌<◌, ◌^◌, ◌≡◌, refl, Bool, false, some, Text, text, nat_eq, text_eq, arith, inl, inr,
  Bool-cases, leb, length, if◌then◌else◌,
}
use hmlb.Prelude.Maps.{Map, lookup}
use hmlb.Prelude.Words.{u64, u64-small}
use hmlb.Flappy.Birds.{Bird, random_bird}
use hmlb.Flappy.Conn.{Conn}
use hmlb.Flappy.Float.{Float}
use hmlb.Flappy.Name.{validate_name}
use hmlb.Flappy.Rng.{Rng}
use hmlb.Flappy.Store.Defs.{Store, lookup_bird, remember_bird}
use hmlb.Flappy.Hub.Defs.{Session, Hub, name_taken, bird_taken}
use hmlb.Flappy.Hub.Frames.{reject, send_welcome, welcome_msg, broadcast}
use hmlb.Flappy.Hub.Handlers.{
  JoinReply, joined, refused, assign_bird, new_session, admit, handle_join,
}
use hmlb.Flappy.Hub.Invariant.{IsOpen, IsWired, IsHub}
use hmlb.Flappy.Hub.Names.{unique_name_total}
use hmlb.Flappy.Hub.Sending.{Sends-IsHub, enqueue_to_total, broadcast_total, IsWired-sent}
use hmlb.Flappy.Wire.{welcome, error}
use hmlb.Flappy.Hub.Wiring.{IsUnused, close_at_total, IsWired-closed}
use hmlb.Flappy.Hub.Enter.{enter_race_total}

module _ {A : Type 0} ⦃f : Float A⦄ where
  -- A refusal tells the newcomer why, and closes the connection.
  reject_total :
      (c : ℕ) (msg : Text) (h : Hub A)
      → IsHub h
      → IsOpen h.conns c
      → IsUnused h.players c
      → (h' : Hub A) × (reject c msg h ≡ some h') × IsHub h'
  unfolding reject
  reject_total c msg h ok open_c unused =
      let (told, sends, stay) = enqueue_to_total c (error msg) h.conns open_c in
      let (shut, closes, keep) = close_at_total c told (stay c open_c).0 (stay c open_c).1 in
      (
        record h { conns = shut },
        rw (sends, reject, closes) refl,
        record {
          roster = ok.roster;
          wired =
              IsWired-closed c h.players told shut
                (IsWired-sent h.players h.conns told ok.wired stay) unused keep;
          race = ok.race;
        },
      )

  -- `assign_bird` touches the generator and the store alone.
  assign_bird_frame :
      (name : Text) (h : Hub A)
      → (b : Bird) × (r : Rng) × (t : Store) × (assign_bird name h
          ≡ (b, record h { rng = r; store = t }))
  unfolding assign_bird
  assign_bird_frame name h = elim (Bool-cases (lookup_bird name h.store).1) [
    | inl known ↦ ((lookup_bird name h.store).0, h.rng, h.store, rw (known, assign_bird) refl)
    | inr new ↦
        let rolled = random_bird h.rng (bird_taken h.players) in
        (rolled.0, rolled.1, remember_bird name rolled.0 h.store, rw (new, assign_bird) refl)
  ]

  send_welcome_total :
      (s : Session) (now : ℕ) (h : Hub A)
      → IsHub h
      → lookup s.id h.players ≡ some s
      → (conns : Map ℕ (Conn A)) × (send_welcome s now h ≡ some (record h { conns = conns }))
        × IsWired h.players conns
  unfolding send_welcome
  send_welcome_total s now h ok here =
      let (conns, sends, stay) =
        enqueue_to_total s.conn (welcome (welcome_msg s now h)) h.conns
          (ok.wired.open_conn s.id s here) in
      (conns, rw (sends, send_welcome) refl, IsWired-sent h.players h.conns conns ok.wired stay)

  -- A newcomer with a clean, free name is admitted.
  admit_total :
      (now sent c : ℕ) (name : Text) (h : Hub A)
      → IsHub h
      → h.next_id + 1 < 2 ^ 64
      → name_taken h.names name ≡ false
      → IsOpen h.conns c
      → IsUnused h.players c
      → (h' : Hub A) × (admit now sent c name h ≡ some (h', joined (u64 (h.next_id + 1))))
        × IsHub h'
  unfolding admit
  admit_total now sent c name h ok room free open_c unused =
      let id = u64 (h.next_id + 1) in
      let next : id ≡ h.next_id + 1 = u64-small (h.next_id + 1) room in
      let (b, r, t, gives) = assign_bird_frame name (record h { next_id = id }) in
      let s = new_session id name b c in
      let h₁ = record h { rng = r; store = t } in
      let ok₁ : IsHub h₁ = record { roster = ok.roster; wired = ok.wired; race = ok.race } in
      let (h₂, enters, ok₂, here, sound, busy) =
        enter_race_total h.st s now h₁ refl ok₁ (omega arith) free (omega arith) open_c unused in
      let (conns, welcomes, wired₃) = send_welcome_total s now h₂ ok₂ here in
      let h₃ = record h₂ { conns = conns } in
      let ok₃ : IsHub h₃ = record { roster = ok₂.roster; wired = wired₃; race = ok₂.race } in
      let (h₄, sends, ok₄) =
        Sends-IsHub h₃ (broadcast sent h₃) ok₃ (broadcast_total sent h₃ wired₃ sound) in
      (h₄, rw (gives, admit, enters, welcomes, sends) refl, ok₄)

  -- What a name is answered with: the hub may be full, and the name invalid.
  abbrev pub reply_to : (ℕ → Bool) → Text → Hub A → JoinReply
  reply_to is_print name h =
      if leb h.max_players (length h.players)
      then refused (text "server full")
      else if (validate_name is_print name).1
      then joined (u64 (h.next_id + 1))
      else refused (text "invalid name")

  -- `handleJoin` answers every request that comes on an open connection which no player has,
  -- without a fault and keeping the invariant, while ids are not used up.
  pub handle_join_total :
      (is_print : ℕ → Bool) (now sent c : ℕ) (name : Text) (h : Hub A)
      → IsHub h
      → h.next_id + 1 < 2 ^ 64
      → IsOpen h.conns c
      → IsUnused h.players c
      → (h' : Hub A) × (handle_join is_print now sent c name h
          ≡ some (h', reply_to is_print name h))
        × IsHub h'
  unfolding handle_join
  handle_join_total is_print now sent c name h ok room open_c unused =
      elim (Bool-cases (leb h.max_players (length h.players))) [
        | inl full ↦
            let (h', runs, ok') = reject_total c (text "server full") h ok open_c unused in
            (h', rw (full, handle_join, runs) refl, ok')
        | inr space ↦ elim (Bool-cases (validate_name is_print name).1) [
          | inr bad ↦
              let msg = text "please pick a name (1-16 characters)" in
              let (h', runs, ok') = reject_total c msg h ok open_c unused in
              (h', rw (space, handle_join, bad, runs) refl, ok')
          | inl fine ↦
              let (name', unique, free, _) =
                unique_name_total h.names (validate_name is_print name).0 in
              let (h', runs, ok') = admit_total now sent c name' h ok room free open_c unused in
              (h', rw (space, handle_join, fine, unique, runs) refl, ok')
        ]
      ]
