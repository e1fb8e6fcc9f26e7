-- ===== src/Flappy/Server/Link.antt =====
-- How a connection's goroutine and the hub agree, and that the events of others do not disturb it.
use hmlb.Prelude.{ℕ, ◌≡◌, ◌≢◌, Bool, some, none, nat_eq, nat_beq, inl, inr, Bool-cases}
use hmlb.Prelude.Maps.{lookup}
use hmlb.Flappy.Float.{Float}
use hmlb.Flappy.Hub.Defs.{Session, Hub}
use hmlb.Flappy.Hub.Bystander.{Spares}
use hmlb.Flappy.Hub.Invariant.{IsOpen, IsHub}
use hmlb.Flappy.Hub.Wiring.{IsUnused}
use hmlb.Flappy.Server.{Reader, unopened, joining, stuck, stopped, playing, Server, placed}

module _ {A : Type 0} ⦃f : Float A⦄ where
  -- A connection that is not open yet is unknown; one that has not joined is open and has no player; a
  -- player's session is on the connection.
  abbrev pub Linked : Reader → ℕ → Hub A → Type 0
  Linked unopened c h = lookup c h.conns ≡ none
  Linked joining c h = IsOpen h.conns c × IsUnused h.players c
  Linked (playing id) c h = (s : Session) × (lookup id h.players ≡ some s) × (s.conn ≡ c)
  Linked stuck c h = Unit {0}
  Linked stopped c h = Unit {0}

  pub Linked-Spares :
      (r : Reader) (c : ℕ) (h h' : Hub A) → Spares c h h' → Linked r c h → Linked r c h'
  Linked-Spares unopened c h h' p l = p.absent l
  Linked-Spares joining c h h' p l = (p.stays_open l.0, p.unused l.1)
  Linked-Spares (playing id) c h h' p (s, here, own) = p.seated id s here own
  Linked-Spares stuck c h h' p l = tt
  Linked-Spares stopped c h h' p l = tt

  -- The hub's invariant, and the link of every connection.
  pub record IsServer (s : Server A) : Type 0 where
    pub hub : IsHub s.hub
    pub links : (c : ℕ) → Linked (s.readers c) c s.hub

  -- An event of connection `c` that spares the others keeps the links.
  pub placed-IsServer :
      (is_print : ℕ → Bool) (c : ℕ) (r : Reader) (h' : Hub A) (s : Server A)
      → IsServer s
      → IsHub h'
      → ((d : ℕ) → d ≢ c → Spares d s.hub h')
      → Linked r c h'
      → IsServer (placed is_print c r h' s)
  placed-IsServer is_print c r h' s ok ok' spares own = record {
    hub = ok';
    links = λ d. elim (Bool-cases (nat_beq d c)) [
      | inl hit ↦ let one : d ≡ c = (nat_eq.beq_iff d c).0 hit in rw hit (rw one own)
      | inr miss ↦ rw miss (
          Linked-Spares (s.readers d) d s.hub h'
            (spares d (λ e. cc (miss, (nat_eq.beq_iff d c).1 e))) (ok.links d))
    ];
  }

  -- An event that spares every connection.
  pub same-IsServer :
      (h' : Hub A) (s : Server A)
      → IsServer s
      → IsHub h'
      → ((d : ℕ) → Spares d s.hub h')
      → IsServer (record s { hub = h' })
  same-IsServer h' s ok ok' spares = record {
    hub = ok';
    links = λ d. Linked-Spares (s.readers d) d s.hub h' (spares d) (ok.links d);
  }
