-- ===== src/Flappy/Hub/Sending.antt =====
-- Sending never faults while the players' connections are open: a snapshot can always be made, and a
-- full queue takes the new frame.
use hmlb.Prelude.{
  ℕ, zero, suc, ◌+◌, ◌≤◌, ◌<◌, ◌≡◌, refl, sym, ◌∙◌, leb, false, ◌||◌, List, [], ◌∷◌, ◌++◌, Option,
  some, none, nat_eq, arith, inl, inr, ltb, length, drop, Option-cases, Bool-cases, ◌==◌, nat_beq,
  length-append, length-drop,
}
use hmlb.Prelude.All.{All}
use hmlb.Prelude.Maps.{Map, lookup, insert, lookup-insert, lookup-keys}
use hmlb.Flappy.Conn.{Conn, enqueue, enqueue_loop, enqueue_to, send_queue_len}
use hmlb.Flappy.Float.{Float}
use hmlb.Flappy.Hub.Defs.{Session, Hub, is_waiting}
use hmlb.Flappy.Hub.Frames.{
  bare_snapshot, with_world, make_snapshot, send_each, broadcast, maybe_snapshot,
}
use hmlb.Flappy.Hub.Invariant.{IsOpen, IsWired, IsHub}
use hmlb.Flappy.Wire.{Frame, Snapshot, snapshot, BirdSnap}
use hmlb.Flappy.World.Defs.{BirdState, World, bird_snap, bird_snaps, bird_snaps_of, pipe_snaps}
use hmlb.Flappy.World.Total.{IsWorld}

module _ {A : Type 0} where
  -- Enough rounds: each one that finds the queue full makes it shorter.
  enqueue_loop_total :
      (fuel : ℕ) (b : Frame A) (q : List (Frame A))
      → length q < fuel
      → (r : List (Frame A)) × (enqueue_loop fuel b q ≡ some r) × (length r ≤ send_queue_len)
  unfolding enqueue_loop
  enqueue_loop_total zero b q h = elim h [ ]
  enqueue_loop_total (suc fuel) b q h = elim (Bool-cases (ltb (length q) send_queue_len)) [
    | inl room ↦
        (q ++ b ∷ [], rw (room, enqueue_loop) refl, ground (arith, length-append q (b ∷ [])))
    | inr full ↦
        let (r, runs, short) =
          enqueue_loop_total fuel b (drop 1 q) (ground (arith, length-drop 1 q)) in
        (r, rw (full, enqueue_loop) runs, short)
  ]

  -- An open connection takes a frame, whatever its queue holds, and stays open within its capacity.
  pub enqueue_total :
      (b : Frame A) (c : Conn A)
      → c.closed ≡ false
      → (d : Conn A) × (enqueue b c ≡ some d)
        × (d.closed ≡ false)
        × (length d.send ≤ send_queue_len)
  unfolding enqueue
  enqueue_total b c h =
      let (r, runs, short) = enqueue_loop_total (suc (length c.send)) b c.send (omega arith) in
      (record c { send = r }, ground (arith, runs), h, short)

  -- What a send leaves of the connections: those that were open are.
  abbrev pub StayOpen : Map ℕ (Conn A) → Map ℕ (Conn A) → Type 0
  StayOpen conns conns' = (c : ℕ) → IsOpen conns c → IsOpen conns' c

  pub enqueue_to_total :
      (i : ℕ) (b : Frame A) (conns : Map ℕ (Conn A))
      → IsOpen conns i
      → (conns' : Map ℕ (Conn A)) × (enqueue_to i b conns ≡ some conns') × StayOpen conns conns'
  unfolding enqueue_to
  enqueue_to_total i b conns (c, found, h) =
      let (d, runs, still, _) = enqueue_total b c h in
      (
        insert i d conns,
        rw (found, enqueue_to, runs) refl,
        λ j o. elim (Bool-cases (i == j)) [
          | inl hit ↦ (d, rw (lookup-insert i j d conns, hit) refl, still)
          | inr miss ↦ (o.0, rw (lookup-insert i j d conns, miss) o.1, o.2)
        ],
      )

module _ {A : Type 0} ⦃f : Float A⦄ where
  pub send_each_total :
      (b : Frame A) (ids : List ℕ) (players : Map ℕ Session) (conns : Map ℕ (Conn A))
      → ((k : ℕ) (s : Session) → lookup k players ≡ some s → IsOpen conns s.conn)
      → (conns' : Map ℕ (Conn A)) × (send_each b ids players conns ≡ some conns')
        × StayOpen conns conns'
  unfolding send_each
  send_each_total b [] players conns wired = (conns, refl, λ c o. o)
  send_each_total b (id ∷ ids) players conns wired = elim (Option-cases (lookup id players)) [
    | inl gone ↦
        let (conns', runs, stay) = send_each_total b ids players conns wired in
        (conns', rw (gone, send_each) runs, stay)
    | inr (s, found) ↦
        let (conns₁, sends, stay₁) = enqueue_to_total s.conn b conns (wired id s found) in
        let (conns₂, runs, stay₂) =
          send_each_total b ids players conns₁ (λ k t h. stay₁ t.conn (wired k t h)) in
        (conns₂, rw (found, send_each, sends) runs, λ c o. stay₂ c (stay₁ c o))
  ]

  bird_snaps_of_total :
      (tick : ℕ) (ids : List ℕ) (m : Map ℕ (BirdState A))
      → All (λ k. (b : BirdState A) × (lookup k m ≡ some b)) ids
      → (snaps : List (BirdSnap A)) × (bird_snaps_of tick ids m ≡ some snaps)
  unfolding bird_snaps_of
  bird_snaps_of_total tick [] m h = ([], refl)
  bird_snaps_of_total tick (k ∷ ids) m ((b, found), rest) =
      let (snaps, runs) = bird_snaps_of_total tick ids m rest in
      (bird_snap tick b ∷ snaps, rw (found, bird_snaps_of, runs) refl)

  pub bird_snaps_total :
      (w : World A) → IsWorld w → (snaps : List (BirdSnap A)) × (bird_snaps w ≡ some snaps)
  unfolding bird_snaps
  bird_snaps_total w ok =
      bird_snaps_of_total w.tick w.order w.birds (rw (← ok.keyed) (lookup-keys w.birds))

  abbrev pub IsSound : Option (World A) → Type 0
  IsSound world = (w : World A) → world ≡ some w → IsWorld w

  make_snapshot_total :
      (snap : Snapshot A) (world : Option (World A))
      → IsSound world
      → (full : Snapshot A) × (with_world snap world ≡ some full)
  unfolding with_world
  make_snapshot_total snap none sound = (snap, refl)
  make_snapshot_total snap (some w) sound =
      let (snaps, runs) = bird_snaps_total w (sound w refl) in
      (
        record snap { tick = w.tick; dist = w.dist; birds = snaps; pipes = pipe_snaps w },
        rw (runs, with_world) refl,
      )

  -- What `broadcast` changes: the queues, and the time of the last snapshot.
  abbrev pub sent_as : Hub A → ℕ → Map ℕ (Conn A) → Hub A
  sent_as h t conns = record h { last_snap = t; conns = conns }

  abbrev pub Sends : Hub A → Option (Hub A) → Type 0
  Sends h r =
      (t : ℕ) × (conns : Map ℕ (Conn A)) × (r ≡ some (sent_as h t conns)) × StayOpen h.conns conns

  pub broadcast_total :
      (sent : ℕ) (h : Hub A)
      → IsWired h.players h.conns
      → IsSound h.world
      → Sends h (broadcast sent h)
  unfolding broadcast make_snapshot
  broadcast_total sent h wired sound =
      elim (Bool-cases (is_waiting h.st || nat_beq (length h.players) 0)) [
        | inl quiet ↦ (h.last_snap, h.conns, rw (quiet, broadcast) refl, λ c o. o)
        | inr loud ↦
            let (snap, makes) = make_snapshot_total (bare_snapshot sent h) h.world sound in
            let (conns, sends, stay) =
              send_each_total (snapshot snap) h.order h.players h.conns wired.open_conn in
            (sent, conns, rw (loud, broadcast, makes, sends) refl, stay)
      ]

  pub maybe_snapshot_total :
      (now sent : ℕ) (h : Hub A)
      → IsWired h.players h.conns
      → IsSound h.world
      → Sends h (maybe_snapshot now sent h)
  unfolding maybe_snapshot
  maybe_snapshot_total now sent h wired sound =
      elim (Bool-cases (leb (h.last_snap + h.snapshot_every) now)) [
        | inl due ↦ rw (due, maybe_snapshot) (broadcast_total sent h wired sound)
        | inr early ↦ (h.last_snap, h.conns, rw (early, maybe_snapshot) refl, λ c o. o)
      ]

  pub IsWired-sent :
      (players : Map ℕ Session) (conns conns' : Map ℕ (Conn A))
      → IsWired players conns
      → StayOpen conns conns'
      → IsWired players conns'
  IsWired-sent players conns conns' wired stay = record {
    open_conn = λ k s e. stay s.conn (wired.open_conn k s e);
    injective = wired.injective;
  }

  -- So a hub stays a hub.
  pub Sends-IsHub :
      (h : Hub A) (r : Option (Hub A))
      → IsHub h
      → Sends h r
      → (h' : Hub A) × (r ≡ some h') × IsHub h'
  Sends-IsHub h r ok (t, conns, runs, stay) = (
    sent_as h t conns,
    runs,
    record {
      roster = ok.roster;
      wired = IsWired-sent h.players h.conns conns ok.wired stay;
      race = ok.race;
    },
  )

  -- What every event leaves besides: the players, and the connections that were open.
  abbrev pub Keeps : Hub A → Option (Hub A) → Type 0
  Keeps h r =
      (h' : Hub A) × (r ≡ some h') × IsHub h' × (h'.players ≡ h.players) × StayOpen h.conns h'.conns

  pub Sends-Keeps : (h : Hub A) (r : Option (Hub A)) → IsHub h → Sends h r → Keeps h r
  Sends-Keeps h r ok (t, conns, runs, stay) = (
    sent_as h t conns,
    runs,
    record {
      roster = ok.roster;
      wired = IsWired-sent h.players h.conns conns ok.wired stay;
      race = ok.race;
    },
    refl,
    stay,
  )

  some_injective : {v w : World A} → some v ≡ some w → v ≡ w
  some_injective e = cc

  -- Of the world that a race has, every reading is sound.
  pub IsSound-known :
      (world : Option (World A)) (v : World A) → world ≡ some v → IsWorld v → IsSound world
  IsSound-known world v e ok w e' = let same : v ≡ w = some_injective (sym e ∙ e') in rw (← same) ok
