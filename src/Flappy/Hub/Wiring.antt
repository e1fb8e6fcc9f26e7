-- ===== src/Flappy/Hub/Wiring.antt =====
-- Whose connections are open, when one is closed and when a player comes on one.
use hmlb.Prelude.{ℕ, ◌≡◌, ◌≢◌, refl, sym, ap, ◌∙◌, some, nat_eq, text_eq, inl, inr}
use hmlb.Prelude.Maps.{Map, lookup, insert, lookup-insert_inv, lookup-insert_ne}
use hmlb.Flappy.Conn.{Conn, close, close_at}
use hmlb.Flappy.Hub.Defs.{Session}
use hmlb.Flappy.Hub.Invariant.{IsOpen, IsWired}

-- A connection that no player has.
abbrev pub IsUnused : Map ℕ Session → ℕ → Type 0
IsUnused players c = (k : ℕ) (s : Session) → lookup k players ≡ some s → s.conn ≢ c

module _ {A : Type 0} where
  -- Closing a connection leaves the others open.
  pub close_at_total :
      (c : ℕ) (conns : Map ℕ (Conn A)) (k : Conn A)
      → lookup c conns ≡ some k
      → (conns' : Map ℕ (Conn A)) × (close_at c conns ≡ some conns')
        × ((d : ℕ) → d ≢ c → IsOpen conns d → IsOpen conns' d)
  unfolding close_at
  close_at_total c conns k found = (
    insert c (close k) conns,
    rw (found, close_at) refl,
    λ d ne o. (o.0, lookup-insert_ne c d (close k) conns (λ e. ne (sym e)) ∙ o.1, o.2),
  )

  pub IsWired-closed :
      (c : ℕ) (players : Map ℕ Session) (conns conns' : Map ℕ (Conn A))
      → IsWired players conns
      → IsUnused players c
      → ((d : ℕ) → d ≢ c → IsOpen conns d → IsOpen conns' d)
      → IsWired players conns'
  IsWired-closed c players conns conns' wired unused keep = record {
    open_conn = λ k s e. keep s.conn (unused k s e) (wired.open_conn k s e);
    injective = wired.injective;
  }

  -- One more player, on a connection of its own.
  pub enroll-IsWired :
      (s : Session) (players : Map ℕ Session) (conns : Map ℕ (Conn A))
      → IsWired players conns
      → IsOpen conns s.conn
      → IsUnused players s.conn
      → IsWired (insert s.id s players) conns
  enroll-IsWired s players conns wired open_s unused = record {
    open_conn = λ k t e. elim (lookup-insert_inv s.id k s t players e) [
      | inl (_, this) ↦ rw (← this) open_s
      | inr (_, old) ↦ wired.open_conn k t old
    ];
    injective = λ j k t u d e same. elim (lookup-insert_inv s.id j s t players d) [
      | inl (hj, this_t) ↦ elim (lookup-insert_inv s.id k s u players e) [
        | inl (hk, this_u) ↦ sym hj ∙ hk
        | inr (_, old_u) ↦
            absurd (unused k u old_u (sym same ∙ ap (λ (x : Session). x.conn) (sym this_t)))
      ]
      | inr (_, old_t) ↦ elim (lookup-insert_inv s.id k s u players e) [
        | inl (hk, this_u) ↦
            absurd (unused j t old_t (same ∙ ap (λ (x : Session). x.conn) (sym this_u)))
        | inr (_, old_u) ↦ wired.injective j k t u old_t old_u same
      ]
    ];
  }
