-- ===== src/Flappy/Hub/Seats.antt =====
-- What a flap, a join and a leave do to the other connections, and where they leave the own one.
use hmlb.Prelude.{
  ℕ, ◌+◌, ◌/◌, ◌≡◌, refl, sym, ap, ◌∙◌, Option, some, none, nat_eq, text_eq, inl, inr, ◌==◌, arith,
  Bool-cases, Option-cases, leb,
}
use hmlb.Prelude.Options.{>>=-eq-some}
use hmlb.Prelude.Maps.{lookup, insert, lookup-insert, lookup-insert_inv}
use hmlb.Flappy.Const.{flap_rate_limit}
use hmlb.Flappy.Float.{Float}
use hmlb.Flappy.Hub.Defs.{Session, Hub}
use hmlb.Flappy.Hub.Handlers.{
  counted, put_session, find_session, pend, count_flap, flap_in_race, flap_in, handle_flap,
}
use hmlb.Flappy.Hub.Phase.{some_injective}
use hmlb.Flappy.Hub.Touch.{Same-refl, Same-of_eq}
use hmlb.Flappy.Hub.Bystander.{Spares, Same-Spares}
use hmlb.Flappy.Wire.{RaceState, waiting, countdown, racing, finished}
use hmlb.Flappy.World.Defs.{World, is_racer}

counted-conn : (sec : ℕ) (s : Session) → (counted sec s).conn ≡ s.conn
counted-conn sec s = ground arith

module _ {A : Type 0} ⦃f : Float A⦄ where
  pub Spares-trans : (d : ℕ) (g h h' : Hub A) → Spares d g h → Spares d h h' → Spares d g h'
  Spares-trans d g h h' p q = record {
    absent = λ e. q.absent (p.absent e);
    stays_open = λ o. q.stays_open (p.stays_open o);
    unused = λ u. q.unused (p.unused u);
    seated =
        λ k s here own. let (t, there, still) = p.seated k s here own in q.seated k t there still;
  }

  pub Spares-of_eq : (d : ℕ) (h g h' : Hub A) → Spares d h g → some g ≡ some h' → Spares d h h'
  Spares-of_eq d h g h' p e = let same : g ≡ h' = some_injective e in rw (← same) p

  -- A player's own record changes, but not the connection.
  replaced-Spares :
      (d id : ℕ) (s t : Session) (h : Hub A)
      → lookup id h.players ≡ some s
      → t.conn ≡ s.conn
      → Spares d h (record h { players = insert id t h.players })
  replaced-Spares d id s t h here own = record {
    absent = λ e. e;
    stays_open = λ o. o;
    unused = λ u k x found. elim (lookup-insert_inv id k t x h.players found) [
      | inl (_, this) ↦ λ e. u id s here (sym own ∙ ap (λ (y : Session). y.conn) this ∙ e)
      | inr (_, old) ↦ u k x old
    ];
    seated = λ k x found of_d. elim (Bool-cases (id == k)) [
      | inl hit ↦
          let one : id ≡ k = (nat_eq.beq_iff id k).0 hit in
          let same : s ≡ x = some_injective (sym here ∙ ap (λ j. lookup j h.players) one ∙ found) in
          (
            t,
            rw (lookup-insert id k t h.players, hit) refl,
            own ∙ ap (λ (y : Session). y.conn) same ∙ of_d,
          )
      | inr miss ↦ (x, rw (lookup-insert id k t h.players, miss) found, of_d)
    ];
  }

  put_session-Spares :
      (d id : ℕ) (s t : Session) (h : Hub A)
      → find_session id h ≡ some s
      → t.conn ≡ s.conn
      → Spares d h (put_session id t h)
  unfolding find_session
  put_session-Spares d id s t h found own = elim (Option-cases (lookup id h.players)) [
    | inl away ↦ rw (away, put_session) (Same-Spares d h _ (Same-refl h))
    | inr (x, here) ↦
        let same : x ≡ s = some_injective (rw (here, find_session) at found) in
        rw (here, put_session) (replaced-Spares d id s t h (here ∙ ap some same) own)
  ]

  pend-Spares : (d id : ℕ) (w : World A) (h : Hub A) → Spares d h (pend id w h)
  pend-Spares d id w h = elim (Bool-cases (is_racer id w)) [
    | inl races ↦ rw races (Same-Spares d h _ (Same-refl h))
    | inr watches ↦ rw watches (Same-Spares d h _ (Same-refl h))
  ]

  count_flap-Spares :
      (d id : ℕ) (s t : Session) (h h' : Hub A)
      → find_session id h ≡ some s
      → t.conn ≡ s.conn
      → count_flap id t h ≡ some h'
      → Spares d h h'
  unfolding count_flap
  count_flap-Spares d id s t h h' found own runs =
      elim (Bool-cases (leb flap_rate_limit t.flap_count)) [
        | inl many ↦
            Spares-of_eq d h (put_session id t h) h' (put_session-Spares d id s t h found own)
              (rw (many, count_flap) at runs)
        | inr few ↦
            let (w, _, e) = >>=-eq-some h.world _ (rw (few, count_flap) at runs) in
            let t' = record t { flap_count = t.flap_count + 1 } in
            let put = put_session id t' h in
            Spares-of_eq d h (pend t.id w put) h'
              (Spares-trans d h put (pend t.id w put) (put_session-Spares d id s t' h found own)
                (pend-Spares d t.id w put))
              e
      ]

  flap_in-Spares :
      (d : ℕ) (st : RaceState) (now id : ℕ) (h h' : Hub A)
      → flap_in st now id h ≡ some h'
      → Spares d h h'
  unfolding flap_in flap_in_race
  flap_in-Spares d waiting now id h h' runs =
      Same-Spares d h h' (Same-of_eq h h h' (Same-refl h) runs)
  flap_in-Spares d countdown now id h h' runs =
      Same-Spares d h h' (Same-of_eq h h h' (Same-refl h) runs)
  flap_in-Spares d finished now id h h' runs =
      Same-Spares d h h' (Same-of_eq h h h' (Same-refl h) runs)
  flap_in-Spares d racing now id h h' runs =
      let (s, found, counts) = >>=-eq-some (find_session id h) _ runs in
      count_flap-Spares d id s (counted (now / 1000) s) h h' found (counted-conn (now / 1000) s)
        counts

  pub handle_flap-Spares :
      (d now : ℕ) (id : Option ℕ) (h h' : Hub A) → handle_flap now id h ≡ some h' → Spares d h h'
  unfolding handle_flap
  handle_flap-Spares d now none h h' runs =
      Same-Spares d h h' (Same-of_eq h h h' (Same-refl h) runs)
  handle_flap-Spares d now (some id) h h' runs = flap_in-Spares d h.st now id h h' runs
