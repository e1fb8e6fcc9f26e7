-- ===== src/Flappy/Hub/Safety.antt =====
-- Whatever the players do, the hub never faults.
use mathlib.Core.Path.{subst}
use hmlb.Prelude.{
  ℕ, ◌+◌, ◌<◌, ◌^◌, ◌≡◌, refl, sym, ap, ◌∙◌, Bool, Option, some, none, nat_eq, inl, inr, Bool-cases,
  ◌==◌,
}
use hmlb.Prelude.Maps.{lookup, insert, lookup-insert}
use hmlb.Flappy.Conn.{Conn, new_client_conn}
use hmlb.Flappy.Float.{Float, FloatLaws}
use hmlb.Flappy.Hub.Defs.{Session, Hub, Config, new_hub}
use hmlb.Flappy.Hub.Events.{Event, connect, join, flap, leave, ticker, dispatch}
use hmlb.Flappy.Hub.Handlers.{handle_flap}
use hmlb.Flappy.Hub.Flap.{handle_flap_total}
use hmlb.Flappy.Hub.Invariant.{IsOpen, IsHub}
use hmlb.Flappy.Hub.Wiring.{IsUnused}
use hmlb.Flappy.Hub.Join.{handle_join_total}
use hmlb.Flappy.Hub.Leave.{handle_leave_total, stranger_leaves}
use hmlb.Flappy.Hub.Ticks.{tick_total}
use hmlb.Flappy.Rng.{Rng}
use hmlb.Flappy.Store.Defs.{Store}

module _ {A : Type 0} ⦃f : Float A⦄ where
  -- What the connections' goroutines keep to. A join comes on an open connection that has no session, a
  -- flap from a session that has not left, and a leave on the session's own connection, or on one that
  -- has none. Ids are not used up.
  abbrev pub IsAllowed : Event → Hub A → Type 0
  IsAllowed (connect c) h = lookup c h.conns ≡ none
  IsAllowed (join now sent c name) h =
      (h.next_id + 1 < 2 ^ 64) × IsOpen h.conns c × IsUnused h.players c
  IsAllowed (flap now none) h = Unit {0}
  IsAllowed (flap now (some id)) h = (s : Session) × (lookup id h.players ≡ some s)
  IsAllowed (leave now sent none id) h = ⊥
  IsAllowed (leave now sent (some c) none) h =
      (k : Conn A) × (lookup c h.conns ≡ some k) × IsUnused h.players c
  IsAllowed (leave now sent (some c) (some id)) h =
      (s : Session) × (lookup id h.players ≡ some s) × (s.conn ≡ c)
  IsAllowed (ticker now sent) h = Unit {0}

  abbrev Handles : Option (Hub A) → Type 0
  Handles r = (h' : Hub A) × (r ≡ some h') × IsHub h'

  connect-Handles :
      (c : ℕ) (h : Hub A)
      → IsHub h
      → Handles (some (record h { conns = insert c new_client_conn h.conns }))
  connect-Handles c h ok = (
    record h { conns = insert c new_client_conn h.conns },
    refl,
    record {
      roster = ok.roster;
      wired = record {
        open_conn = λ k s e. elim (Bool-cases (c == s.conn)) [
          | inl hit ↦
              (new_client_conn, rw (lookup-insert c s.conn new_client_conn h.conns, hit) refl, refl)
          | inr miss ↦
              let (x, found, open_x) = ok.wired.open_conn k s e in
              (x, rw (lookup-insert c s.conn new_client_conn h.conns, miss) found, open_x)
        ];
        injective = ok.wired.injective;
      };
      race = ok.race;
    },
  )

  -- With the float laws, every event that is allowed on a hub with the invariant is handled without
  -- a fault, and the invariant holds of the hub that results.
  pub dispatch_total :
      FloatLaws f
      → (is_print : ℕ → Bool) (e : Event) (h : Hub A) → IsHub h
      → IsAllowed e h
      → (h' : Hub A) × (dispatch is_print e h ≡ some h') × IsHub h'
  unfolding dispatch handle_flap
  dispatch_total laws is_print (connect c) h ok allowed = connect-Handles c h ok
  dispatch_total laws is_print (join now sent c name) h ok (room, open_c, unused) =
      let (h', runs, ok') = handle_join_total is_print now sent c name h ok room open_c unused in
      (h', rw (runs, dispatch) refl, ok')
  dispatch_total laws is_print (flap now none) h ok allowed = (h, refl, ok)
  dispatch_total laws is_print (flap now (some id)) h ok (s, here) =
      let (h', runs, ok', _) = handle_flap_total now id s h ok here in (h', runs, ok')
  dispatch_total laws is_print (leave now sent none id) h ok allowed = absurd allowed
  dispatch_total laws is_print (leave now sent (some c) none) h ok (k, there, unused) =
      let (h', runs, ok', _) = stranger_leaves now sent c k h ok there unused in (h', runs, ok')
  dispatch_total laws is_print (leave now sent (some c) (some id)) h ok (s, here, own) =
      let (h', runs, ok', _) = handle_leave_total now sent id s h ok here in
      (h', ap (λ d. dispatch is_print (leave now sent (some d) (some id)) h) (sym own) ∙ runs, ok')
  dispatch_total laws is_print (ticker now sent) h ok allowed = tick_total laws now sent h ok

  -- The hubs that a server gets to.
  pub data Reach (is_print : ℕ → Bool) : Hub A → Type 0 where
    start : (cfg : Config) (store : Store) (rng : Rng) → Reach is_print (new_hub cfg store rng)
    next :
        {h h' : Hub A} (e : Event)
        → Reach is_print h
        → IsAllowed e h
        → dispatch is_print e h ≡ some h'
        → Reach is_print h'

  pub new_hub-IsHub :
      (cfg : Config) (store : Store) (rng : Rng) → IsHub {A = A} (new_hub cfg store rng)
  unfolding new_hub lookup
  new_hub-IsHub cfg store rng = record {
    roster = record {
      keyed = refl;
      distinct = tt;
      ids = λ k s e. cc;
      positive = λ k s e. cc;
      bounded = λ k s e. cc;
      paced = λ k s e. cc;
      named = λ k s e. cc;
    };
    wired = record { open_conn = λ k s e. cc; injective = λ j k s t d e same. cc };
    race = refl;
  }

  -- With the float laws, the invariant holds of every hub that a new one gets to by events that are
  -- allowed.
  pub reach-IsHub : FloatLaws f → (is_print : ℕ → Bool) (h : Hub A) → Reach is_print h → IsHub h
  reach-IsHub laws is_print h (start cfg store rng) = new_hub-IsHub cfg store rng
  reach-IsHub laws is_print h (next {h = g} e r allowed runs) =
      let (h', runs', ok) =
        dispatch_total laws is_print e g (reach-IsHub laws is_print g r) allowed in
      let same : h' ≡ h = some_injective (sym runs' ∙ runs) in subst IsHub same ok
    where
      some_injective : {v w : Hub A} → some v ≡ some w → v ≡ w
      some_injective e = cc
