-- ===== src/Flappy/Server/Safety.antt =====
-- Whatever the clients send and whenever they break off, the server goes on.
use mathlib.Core.Path.{subst}
use hmlb.Prelude.{
  ℕ, ◌+◌, ◌<◌, ◌^◌, ◌≡◌, ◌≢◌, refl, sym, ap, ◌∙◌, Bool, true, false, Option, some, none, nat_eq,
  nat_beq, Text, inl, inr, Bool-cases, ◌>>=◌,
}
use hmlb.Prelude.Maps.{lookup, insert, lookup-insert_self, lookup-insert_ne}
use hmlb.Flappy.Conn.{new_client_conn}
use hmlb.Flappy.Float.{Float, FloatLaws}
use hmlb.Flappy.Hub.Arrivals.{conns-Spares, IsRefused, Seats, handle_join-Seats}
use hmlb.Flappy.Hub.Bystander.{Spares, Same-Spares, tick-Same}
use hmlb.Flappy.Hub.Defs.{Hub}
use hmlb.Flappy.Hub.Departures.{handle_leave-Spares, stranger_leave-Spares}
use hmlb.Flappy.Hub.Events.{Event, connect, flap, leave, ticker, dispatch}
use hmlb.Flappy.Hub.Handlers.{JoinReply, joined, refused}
use hmlb.Flappy.Hub.Invariant.{IsHub}
use hmlb.Flappy.Hub.Join.{reply_to, handle_join_total}
use hmlb.Flappy.Hub.Phase.{some_injective}
use hmlb.Flappy.Hub.Safety.{IsAllowed, dispatch_total}
use hmlb.Flappy.Hub.Seats.{Spares-trans, handle_flap-Spares}
use hmlb.Flappy.Hub.Touch.{Same-refl}
use hmlb.Flappy.Hub.Wiring.{IsUnused}
use hmlb.Flappy.Server.{
  ClientFrame, Incoming, read_frame, Reader, unopened, joining, stuck, stopped, playing, Server,
  Moment, Action, opens, receives, ticks, t_join, t_flap, placed, submit, stop, answer, ask,
  first_frame, later_frame, receive, serve_conn, act,
}
use hmlb.Flappy.Server.Link.{Linked, IsServer, placed-IsServer, same-IsServer}

module _ {A : Type 0} ⦃f : Float A⦄ (laws : FloatLaws f) (is_print : ℕ → Bool) where
  abbrev Goes : Option (Server A) → Type 0
  Goes r = (s' : Server A) × (r ≡ some s') × IsServer s'

  abbrev SparesOthers : ℕ → Hub A → Hub A → Type 0
  SparesOthers c h h' = (d : ℕ) → d ≢ c → Spares d h h'

  unchanged : (d : ℕ) (h : Hub A) → Spares d h h
  unchanged d h = Same-Spares d h h (Same-refl h)

  -- `Spares` one after the other.
  then_spares :
      (c : ℕ) (g h h' : Hub A) → SparesOthers c g h → SparesOthers c h h' → SparesOthers c g h'
  then_spares c g h h' p q d ne = Spares-trans d g h h' (p d ne) (q d ne)

  -- An event that is submitted, and perhaps lost, spares those that it spares if it is handled.
  submit_total :
      (lost : Bool) (e : Event) (h : Hub A) (P : ℕ → Type 0)
      → IsHub h
      → IsAllowed e h
      → ((h' : Hub A) → dispatch is_print e h ≡ some h' → (d : ℕ) → P d → Spares d h h')
      → (h' : Hub A) × (submit is_print lost e h ≡ some h')
        × IsHub h'
        × ((d : ℕ) → P d → Spares d h h')
  unfolding submit
  submit_total true e h P ok allowed spares = (h, refl, ok, λ d _. unchanged d h)
  submit_total false e h P ok allowed spares =
      let (h', runs, ok') = dispatch_total laws is_print e h ok allowed in
      (h', runs, ok', spares h' runs)

  -- A connection without a player stops, from a hub that the others have been spared on the way to.
  stranger_stops :
      (m : Moment) (c : ℕ) (s : Server A) (h : Hub A)
      → IsServer s
      → IsHub h
      → SparesOthers c s.hub h
      → IsRefused c h
      → Goes (stop is_print m c none (record s { hub = h }))
  unfolding stop dispatch
  stranger_stops m c s h ok ok_h spares ((k, there), unused) =
      let e = leave m.now m.sent (some c) none in
      let (h', runs, ok', more) =
        submit_total m.lost e h (λ d. d ≢ c) ok_h (k, there, unused)
          (λ g runs d ne. stranger_leave-Spares m.now m.sent c d h g runs ne) in
      (
        placed is_print c stopped h' s,
        ap (λ o. o >>= λ g. some (placed is_print c stopped g s)) runs,
        placed-IsServer is_print c stopped h' s ok ok' (then_spares c s.hub h h' spares more) tt,
      )

  joining_stops :
      (m : Moment) (c : ℕ) (s : Server A)
      → IsServer s
      → Linked joining c s.hub
      → Goes (stop is_print m c none s)
  joining_stops m c s ok ((k, there, _), unused) =
      stranger_stops m c s s.hub ok ok.hub (λ d _. unchanged d s.hub) ((k, there), unused)

  player_stops :
      (m : Moment) (c id : ℕ) (s : Server A)
      → IsServer s
      → Linked (playing id) c s.hub
      → Goes (stop is_print m c (some id) s)
  unfolding stop dispatch
  player_stops m c id s ok (t, here, own) =
      let e = leave m.now m.sent (some c) (some id) in
      let (h', runs, ok', spares) =
        submit_total m.lost e s.hub (λ d. d ≢ c) ok.hub (t, here, own)
          (λ g runs d ne.
            handle_leave-Spares m.now m.sent c d id t s.hub g ok.hub here own runs ne) in
      (
        placed is_print c stopped h' s,
        ap (λ o. o >>= λ g. some (placed is_print c stopped g s)) runs,
        placed-IsServer is_print c stopped h' s ok ok' spares tt,
      )

  answer-Goes :
      (n : Moment) (c : ℕ) (reply : JoinReply) (h' : Hub A) (s : Server A)
      → IsServer s
      → IsHub h'
      → SparesOthers c s.hub h'
      → Seats c reply h'
      → Goes (answer is_print n c reply h' s)
  unfolding answer
  answer-Goes n c (joined id) h' s ok ok' spares seat = (
    placed is_print c (playing id) h' s,
    refl,
    placed-IsServer is_print c (playing id) h' s ok ok' spares seat,
  )
  answer-Goes n c (refused msg) h' s ok ok' spares seat = stranger_stops n c s h' ok ok' spares seat

  ask-Goes :
      (lost : Bool) (m n : Moment) (c : ℕ) (name : Text) (s : Server A)
      → IsServer s
      → Linked joining c s.hub
      → s.hub.next_id + 1 < 2 ^ 64
      → Goes (ask is_print lost m n c name s)
  unfolding ask
  ask-Goes true m n c name s ok link room = (
    placed is_print c stuck s.hub s,
    refl,
    placed-IsServer is_print c stuck s.hub s ok ok.hub (λ d _. unchanged d s.hub) tt,
  )
  ask-Goes false m n c name s ok (open_c, unused) room =
      let reply = reply_to is_print name s.hub in
      let (h', runs, ok') =
        handle_join_total is_print m.now m.sent c name s.hub ok.hub room open_c unused in
      let seats = λ (d : ℕ).
        handle_join-Seats is_print m.now m.sent c d name s.hub (h', reply) ok.hub room unused
          runs in
      let (s', answers, ok_s) =
        answer-Goes n c reply h' s ok ok' (λ d ne. (seats d).0 ne) (seats c).1 in
      (s', ap (λ o. o >>= λ r. answer is_print n c r.1 r.0 s) runs ∙ answers, ok_s)

  first_frame-Goes :
      (o : Option ClientFrame) (m n : Moment) (c : ℕ) (s : Server A)
      → IsServer s
      → Linked joining c s.hub
      → s.hub.next_id + 1 < 2 ^ 64
      → Goes (first_frame is_print o m n c s)
  unfolding first_frame
  first_frame-Goes none m n c s ok link room = joining_stops n c s ok link
  first_frame-Goes (some fr) m n c s ok link room = elim (Bool-cases (nat_beq fr.t t_join)) [
    | inl asks ↦ rw (asks, first_frame) (ask-Goes m.lost m n c fr.name s ok link room)
    | inr other ↦ rw (other, first_frame) (joining_stops n c s ok link)
  ]

  later_frame-Goes :
      (o : Option ClientFrame) (m n : Moment) (c id : ℕ) (s : Server A)
      → IsServer s
      → Linked (playing id) c s.hub
      → Goes (later_frame is_print o m n c id s)
  unfolding later_frame dispatch
  later_frame-Goes none m n c id s ok link = player_stops n c id s ok link
  later_frame-Goes (some fr) m n c id s ok (t, here, own) =
      elim (Bool-cases (nat_beq fr.t t_flap)) [
        | inr other ↦ rw (other, later_frame) (s, refl, ok)
        | inl flaps ↦
            let (h', runs, ok', spares) =
              submit_total m.lost (flap m.now (some id)) s.hub (λ d. Unit {0}) ok.hub (t, here)
                (λ g runs d _. handle_flap-Spares d m.now (some id) s.hub g runs) in
            rw (flaps, later_frame)
              (
                record s { hub = h' },
                ap (λ o. o >>= λ g. some (record s { hub = g })) runs,
                same-IsServer h' s ok ok' (λ d. spares d tt),
              )
      ]

  receive-Goes :
      (r : Reader) (i : Incoming) (m n : Moment) (c : ℕ) (s : Server A)
      → IsServer s
      → Linked r c s.hub
      → s.hub.next_id + 1 < 2 ^ 64
      → Goes (receive is_print r i m n c s)
  unfolding receive
  receive-Goes unopened i m n c s ok link room = (s, refl, ok)
  receive-Goes stuck i m n c s ok link room = (s, refl, ok)
  receive-Goes stopped i m n c s ok link room = (s, refl, ok)
  receive-Goes joining i m n c s ok link room = first_frame-Goes (read_frame i) m n c s ok link room
  receive-Goes (playing id) i m n c s ok link room =
      later_frame-Goes (read_frame i) m n c id s ok link

  fresh-IsUnused : (c : ℕ) (h : Hub A) → IsHub h → lookup c h.conns ≡ none → IsUnused h.players c
  fresh-IsUnused c h ok missing k s here own =
      let (x, found, _) = ok.wired.open_conn k s here in
      cc (sym missing ∙ ap (λ d. lookup d h.conns) (sym own) ∙ found)

  serve_conn-Goes :
      (r : Reader) (c : ℕ) (s : Server A)
      → IsServer s
      → Linked r c s.hub
      → Goes (serve_conn is_print r c s)
  unfolding serve_conn dispatch
  serve_conn-Goes joining c s ok link = (s, refl, ok)
  serve_conn-Goes stuck c s ok link = (s, refl, ok)
  serve_conn-Goes stopped c s ok link = (s, refl, ok)
  serve_conn-Goes (playing id) c s ok link = (s, refl, ok)
  serve_conn-Goes unopened c s ok missing =
      let conns' = insert c new_client_conn s.hub.conns in
      let (h', runs, ok') = dispatch_total laws is_print (connect c) s.hub ok.hub missing in
      let h₁ = record s.hub { conns = conns' } in
      let same : h' ≡ h₁ = sym (some_injective runs) in
      (
        placed is_print c joining h₁ s,
        refl,
        placed-IsServer is_print c joining h₁ s ok (subst IsHub same ok')
            (λ d ne.
              conns-Spares d s.hub conns'
                (lookup-insert_ne c d new_client_conn s.hub.conns (λ e. ne (sym e))))
            (
              (new_client_conn, lookup-insert_self c new_client_conn s.hub.conns, refl),
              fresh-IsUnused c s.hub ok.hub missing,
            ),
      )

  -- With the float laws, every step of any connection's goroutine and of the ticker succeeds on a
  -- server whose hub has the invariant and whose connections are linked, and leaves such a server: the
  -- hub never faults, whatever the clients send, while ids are not used up.
  pub act_total :
      (a : Action) (s : Server A)
      → IsServer s
      → s.hub.next_id + 1 < 2 ^ 64
      → (s' : Server A) × (act is_print a s ≡ some s') × IsServer s'
  unfolding act dispatch
  act_total (opens c) s ok room = serve_conn-Goes (s.readers c) c s ok (ok.links c)
  act_total (receives c i m n) s ok room = receive-Goes (s.readers c) i m n c s ok (ok.links c) room
  act_total (ticks now sent) s ok room =
      let (h', runs, ok') = dispatch_total laws is_print (ticker now sent) s.hub ok.hub tt in
      (
        record s { hub = h' },
        ap (λ o. o >>= λ g. some (record s { hub = g })) runs,
        same-IsServer h' s ok ok' (λ d. Same-Spares d s.hub h' (tick-Same now sent s.hub h' runs)),
      )
