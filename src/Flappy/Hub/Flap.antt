-- ===== src/Flappy/Hub/Flap.antt =====
-- A flap never faults, and changes the counters of its session and the flaps to come alone.
use mathlib.Core.Path.{subst}
use hmlb.Prelude.{
  ℕ, ◌+◌, ◌/◌, ◌≤◌, ◌≡◌, refl, sym, if◌then◌else◌, nat_beq, ap, ◌∙◌, List, some, Text, nat_eq,
  text_eq, arith, inl, inr, Bool-cases, leb, ◌>>=◌,
}
use hmlb.Prelude.Maps.{Map, lookup, insert, keys-insert_old, lookup-insert_inv, lookup-same_keys}
use hmlb.Flappy.Conn.{Conn}
use hmlb.Flappy.Const.{flap_rate_limit}
use hmlb.Flappy.Float.{Float}
use hmlb.Flappy.Hub.Defs.{Session, Hub}
use hmlb.Flappy.Hub.Handlers.{
  counted, put_session, find_session, pend, count_flap, flap_in_race, flap_in, handle_flap,
}
use hmlb.Flappy.Hub.Invariant.{IsRoster, IsWired, IsRace, IsHub}
use hmlb.Flappy.Wire.{RaceState, waiting, countdown, racing, finished}
use hmlb.Flappy.World.Defs.{World, is_racer}

-- The same player, with other counters.
abbrev IsSame : Session → Session → Type 0
IsSame s t = (t.id ≡ s.id) × (t.name ≡ s.name) × (t.conn ≡ s.conn)

module _ (id : ℕ) (s t : Session) (players : Map ℕ Session) (here : lookup id players ≡ some s)
    (same : IsSame s t) (low : t.flap_count ≤ flap_rate_limit) where
  -- Every player is found as before, or is the one that changed.
  past :
      (k : ℕ) (u : Session)
      → lookup k (insert id t players) ≡ some u
      → (v : Session) × (lookup k players ≡ some v) × IsSame v u
  past k u e = elim (lookup-insert_inv id k t u players e) [
    | inl (own, this) ↦
        (s, ap (λ i. lookup i players) (sym own) ∙ here, subst (λ x. IsSame s x) this same)
    | inr (_, old) ↦ (u, old, (refl, refl, refl))
  ]

  recount-IsRoster :
      (order : List ℕ) (names : Map Text ℕ) (last : ℕ)
      → IsRoster players order names last
      → IsRoster (insert id t players) order names last
  recount-IsRoster order names last r = record {
    keyed = keys-insert_old id t s players here ∙ r.keyed;
    distinct = r.distinct;
    ids = λ k u e. let (v, old, (i, _, _)) = past k u e in i ∙ r.ids k v old;
    positive = λ k u e. let (v, old, (_, _, _)) = past k u e in r.positive k v old;
    bounded = λ k u e. let (v, old, (_, _, _)) = past k u e in r.bounded k v old;
    paced = λ k u e. elim (lookup-insert_inv id k t u players e) [
      | inl (_, this) ↦ subst (λ (x : Session). x.flap_count ≤ flap_rate_limit) this low
      | inr (_, old) ↦ r.paced k u old
    ];
    named = λ k u e.
        let (v, old, (_, n, _)) = past k u e in ap (λ x. lookup x names) n ∙ r.named k v old;
  }

  recount-IsWired :
      {A : Type 0}
      → (conns : Map ℕ (Conn A)) → IsWired players conns
      → IsWired (insert id t players) conns
  recount-IsWired conns w = record {
    open_conn = λ k u e.
        let (v, old, (_, _, c)) = past k u e in
        let (x, found, open_x) = w.open_conn k v old in
        (x, ap (λ i. lookup i conns) c ∙ found, open_x);
    injective = λ j k u v d e shared.
        let (u', old_u, (_, _, cu)) = past j u d in
        let (v', old_v, (_, _, cv)) = past k v e in
        w.injective j k u' v' old_u old_v (sym cu ∙ shared ∙ cv);
  }

-- The flaps that a player has made in a second.
abbrev pub flaps_of : ℕ → Session → ℕ
flaps_of sec s = if nat_beq s.flap_sec sec then s.flap_count else 0

-- The session with a number of flaps in a second.
abbrev pub with_flaps : ℕ → ℕ → Session → Session
with_flaps sec n s = record s { flap_sec = sec; flap_count = n }

counted_flaps : (sec : ℕ) (s : Session) → counted sec s ≡ with_flaps sec (flaps_of sec s) s
counted_flaps sec s = elim (Bool-cases (nat_beq s.flap_sec sec)) [
  | inl now ↦
      let same : s.flap_sec ≡ sec = (nat_eq.beq_iff s.flap_sec sec).0 now in
      rw now (ap (λ n. with_flaps n s.flap_count s) same)
  | inr past ↦ rw past refl
]

-- Within one second, a session counts at most `FlapRateLimit` flaps.
flaps_of_bound :
    (sec : ℕ) (s : Session) → s.flap_count ≤ flap_rate_limit → flaps_of sec s ≤ flap_rate_limit
flaps_of_bound sec s h = ground arith

module _ {A : Type 0} ⦃f : Float A⦄ where
  recount-IsHub :
      (id : ℕ) (s t : Session) (h : Hub A)
      → h.st ≡ racing
      → lookup id h.players ≡ some s
      → IsSame s t
      → t.flap_count ≤ flap_rate_limit
      → IsHub h
      → IsHub (record h { players = insert id t h.players })
  recount-IsHub id s t h e here same low ok = record {
    roster = recount-IsRoster id s t h.players here same low h.order h.names h.next_id ok.roster;
    wired = recount-IsWired id s t h.players here same low h.conns ok.wired;
    race =
        let (w, known, sound, some_alive, covered) =
          subst (λ st. IsRace st h.world h.order h.players) e ok.race in
        subst (λ st. IsRace st h.world h.order (insert id t h.players)) (sym e)
          (
            w,
            known,
            sound,
            some_alive,
            λ k b found flying.
                let (v, there) = covered k b found flying in
                lookup-same_keys k v h.players (insert id t h.players)
                  (sym (keys-insert_old id t s h.players here)) there,
          );
  }

  put_player :
      (id : ℕ) (s t : Session) (h : Hub A)
      → lookup id h.players ≡ some s
      → put_session id t h ≡ record h { players = insert id t h.players }
  put_player id s t h here = ground (arith, here)

  -- A flap of a player in a race: it is counted and waits for the next tick, if the player is a
  -- racer, while the limit of the second is not reached; and else nothing is new but the second.
  abbrev pub flapped : ℕ → ℕ → Session → World A → Hub A → Hub A
  flapped sec id s w h =
      let n = flaps_of sec s in
      if leb flap_rate_limit n
      then record h { players = insert id (with_flaps sec n s) h.players }
      else record h {
        players = insert id (with_flaps sec (n + 1) s) h.players;
        pending_flaps = if is_racer id w then insert id tt h.pending_flaps else h.pending_flaps;
      }

  -- What a flap does in each state.
  abbrev pub Flaps : RaceState → ℕ → ℕ → Session → Hub A → Hub A → Type 0
  Flaps waiting sec id s h h' = h' ≡ h
  Flaps countdown sec id s h h' = h' ≡ h
  Flaps racing sec id s h h' = (w : World A) × (h.world ≡ some w) × (h' ≡ flapped sec id s w h)
  Flaps finished sec id s h h' = h' ≡ h

  pend-IsHub : (id : ℕ) (w : World A) (h : Hub A) → IsHub h → IsHub (pend id w h)
  pend-IsHub id w h ok = elim (Bool-cases (is_racer id w)) [
    | inl racer ↦ rw racer (record { roster = ok.roster; wired = ok.wired; race = ok.race })
    | inr other ↦ rw other ok
  ]

  pend_flaps :
      (id : ℕ) (w : World A) (h : Hub A)
      → pend id w h ≡ record h {
        pending_flaps = if is_racer id w then insert id tt h.pending_flaps else h.pending_flaps;
      }
  pend_flaps id w h = elim (Bool-cases (is_racer id w)) [
    | inl racer ↦ rw racer refl
    | inr other ↦ rw other refl
  ]

  -- `handleFlap` in a race, with the session's counters made those of the second.
  count_flap-Flaps :
      (sec id : ℕ) (s : Session) (h : Hub A)
      → h.st ≡ racing
      → lookup id h.players ≡ some s
      → IsHub h
      → (h' : Hub A) × (count_flap id (with_flaps sec (flaps_of sec s) s) h ≡ some h')
        × IsHub h'
        × Flaps racing sec id s h h'
  unfolding count_flap
  count_flap-Flaps sec id s h e here ok =
      let n = flaps_of sec s in
      let low = flaps_of_bound sec s (ok.roster.paced id s here) in
      let t = with_flaps sec n s in
      let (w, known, _, _, _) = subst (λ st. IsRace st h.world h.order h.players) e ok.race in
      elim (Bool-cases (leb flap_rate_limit n)) [
        | inl spent ↦ (
          record h { players = insert id t h.players },
          rw (spent, count_flap, put_player id s t h here) refl,
          recount-IsHub id s t h e here (refl, refl, refl) low ok,
          (w, known, rw spent refl),
        )
        | inr left ↦
            let u = with_flaps sec (n + 1) s in
            let h₁ = record h { players = insert id u h.players } in
            let low₁ : n + 1 ≤ flap_rate_limit = ground arith in
            let ok₁ = recount-IsHub id s u h e here (refl, refl, refl) low₁ ok in
            let own : s.id ≡ id = ok.roster.ids id s here in
            (
              pend s.id w h₁,
              rw (left, count_flap)
                  (ap (λ o. o >>= λ v. some (pend s.id v (put_session id u h))) known
                    ∙ ap (λ x. some (pend s.id w x)) (put_player id s u h here)),
              pend-IsHub s.id w h₁ ok₁,
              (w, known, rw left (ap (λ i. pend i w h₁) own ∙ pend_flaps id w h₁)),
            )
      ]

  flap_in-Flaps :
      (st : RaceState) (now id : ℕ) (s : Session) (h : Hub A)
      → h.st ≡ st
      → lookup id h.players ≡ some s
      → IsHub h
      → (h' : Hub A) × (flap_in st now id h ≡ some h') × IsHub h' × Flaps st (now / 1000) id s h h'
  unfolding flap_in flap_in_race find_session
  flap_in-Flaps waiting now id s h e here ok = (h, refl, ok, refl)
  flap_in-Flaps countdown now id s h e here ok = (h, refl, ok, refl)
  flap_in-Flaps racing now id s h e here ok =
      let sec = now / 1000 in
      let (h', runs, ok', flaps) = count_flap-Flaps sec id s h e here ok in
      let found : find_session id h ≡ some s = rw (here, find_session) refl in
      (
        h',
        ap (λ o. o >>= λ u. count_flap id (counted sec u) h) found
            ∙ ap (λ t. count_flap id t h) (counted_flaps sec s)
            ∙ runs,
        ok',
        flaps,
      )
  flap_in-Flaps finished now id s h e here ok = (h, refl, ok, refl)

  -- `handleFlap` for a player of a hub with the invariant never faults, and keeps the invariant.
  -- Outside a race it changes nothing. In a race, with the player's flaps of this second, none if
  -- the last one was in another second: if they have reached `FlapRateLimit`, the player's counters
  -- alone are changed, to these flaps of this second; and if not, one flap is added to them, and
  -- the flap waits for the next tick if the player is a racer of the world, and nothing else
  -- changes.
  pub handle_flap_total :
      (now id : ℕ) (s : Session) (h : Hub A)
      → IsHub h
      → lookup id h.players ≡ some s
      → (h' : Hub A) × (handle_flap now (some id) h ≡ some h')
        × IsHub h'
        × Flaps h.st (now / 1000) id s h h'
  unfolding handle_flap
  handle_flap_total now id s h ok here = flap_in-Flaps h.st now id s h refl here ok
