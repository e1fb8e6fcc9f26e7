-- ===== src/Flappy/Hub/Departures.antt =====
-- What a leave does to the other connections.
use hmlb.Prelude.{
  ℕ, ◌≡◌, ◌≢◌, refl, sym, ap, ◌∙◌, some, none, nat_eq, text_eq, inl, inr, ◌==◌, Bool-cases,
}
use hmlb.Prelude.Options.{>>=-eq-some}
use hmlb.Prelude.Maps.{lookup, lookup-delete, lookup-delete_inv}
use hmlb.Flappy.Conn.{close_at}
use hmlb.Flappy.Float.{Float}
use hmlb.Flappy.Hub.Defs.{Session, Hub}
use hmlb.Flappy.Hub.Handlers.{
  departed, leave_in, close_conn, leave_session, handle_leave, find_session,
}
use hmlb.Flappy.Hub.Invariant.{IsHub}
use hmlb.Flappy.Hub.Phase.{some_injective}
use hmlb.Flappy.Hub.Bystander.{Spares, Same-Spares, leave_in-Same}
use hmlb.Flappy.Hub.Seats.{Spares-trans, Spares-of_eq}
use hmlb.Flappy.Hub.Arrivals.{close_at-others, conns-Spares}

module _ {A : Type 0} ⦃f : Float A⦄ where
  close_conn-Spares :
      (c d : ℕ) (h h' : Hub A) → close_conn (some c) h ≡ some h' → d ≢ c → Spares d h h'
  unfolding close_conn
  close_conn-Spares c d h h' runs ne =
      let (m, shuts, e) = >>=-eq-some (close_at c h.conns) _ runs in
      Spares-of_eq d h (record h { conns = m }) h'
        (conns-Spares d h m (close_at-others c d h.conns m shuts ne)) e

  departed-Spares :
      (d : ℕ) (s : Session) (h : Hub A)
      → lookup s.id h.players ≡ some s
      → d ≢ s.conn
      → Spares d h (departed s h)
  departed-Spares d s h here ne = record {
    absent = λ e. e;
    stays_open = λ o. o;
    unused = λ u k x found. u k x (lookup-delete_inv s.id k x h.players found).1;
    seated = λ k x found of_d. elim (Bool-cases (s.id == k)) [
      | inl hit ↦
          let one : s.id ≡ k = (nat_eq.beq_iff s.id k).0 hit in
          let same : s ≡ x = some_injective (sym here ∙ ap (λ j. lookup j h.players) one ∙ found) in
          absurd (ne (sym of_d ∙ sym (ap (λ (y : Session). y.conn) same)))
      | inr miss ↦ (x, rw (lookup-delete s.id k h.players, miss) found, of_d)
    ];
  }

  leave_session-Spares :
      (now sent c d : ℕ) (s : Session) (h h' : Hub A)
      → lookup s.id h.players ≡ some s
      → d ≢ s.conn
      → d ≢ c
      → leave_session now sent (some c) s h ≡ some h'
      → Spares d h h'
  unfolding leave_session
  leave_session-Spares now sent c d s h h' here ne ne' runs =
      let g = departed s h in
      let (h₁, goes, shuts) = >>=-eq-some (leave_in h.st now sent s g) _ runs in
      Spares-trans d h g h' (departed-Spares d s h here ne) (
        Spares-trans d g h₁ h' (Same-Spares d g h₁ (leave_in-Same h.st now sent s g h₁ goes))
          (close_conn-Spares c d h₁ h' shuts ne'))

  pub handle_leave-Spares :
      (now sent c d id : ℕ) (s : Session) (h h' : Hub A)
      → IsHub h
      → lookup id h.players ≡ some s
      → s.conn ≡ c
      → handle_leave now sent (some c) (some id) h ≡ some h'
      → d ≢ c
      → Spares d h h'
  unfolding handle_leave find_session
  handle_leave-Spares now sent c d id s h h' ok here own runs ne =
      let (t, found, leaves) = >>=-eq-some (find_session id h) _ runs in
      let at_id : find_session id h ≡ some s = rw (here, find_session) refl in
      let same : s ≡ t = some_injective (sym at_id ∙ found) in
      let here' : lookup s.id h.players ≡ some s =
        ap (λ k. lookup k h.players) (ok.roster.ids id s here) ∙ here in
      leave_session-Spares now sent c d s h h' here' (λ e. ne (e ∙ own)) ne
        (ap (λ x. leave_session now sent (some c) x h) same ∙ leaves)

  pub stranger_leave-Spares :
      (now sent c d : ℕ) (h h' : Hub A)
      → handle_leave now sent (some c) none h ≡ some h'
      → d ≢ c
      → Spares d h h'
  unfolding handle_leave
  stranger_leave-Spares now sent c d h h' runs ne = close_conn-Spares c d h h' runs ne
