-- ===== src/Flappy/Hub/Enter.antt =====
-- A newcomer enters the race, whatever its state.
use mathlib.Core.Path.{subst}
use hmlb.Prelude.{
  ℕ, ◌≤◌, ◌<◌, ◌≡◌, ◌≢◌, refl, sym, false, List, [], ◌∷◌, ◌++◌, Option, some, nat_eq, text_eq, inl,
  inr, Bool-cases, ◌==◌,
}
use hmlb.Prelude.All.{Fresh}
use hmlb.Prelude.Maps.{lookup, insert, lookup-insert, lookup-insert_self}
use hmlb.Flappy.Const.{flap_rate_limit}
use hmlb.Flappy.Float.{Float}
use hmlb.Flappy.Hub.Defs.{Session, Hub, name_taken}
use hmlb.Flappy.Hub.Handlers.{enrolled, enter_race, admit_racer}
use hmlb.Flappy.Hub.Invariant.{IsRoster, IsOpen, IsWired, IsCovered, IsRace, IsHub}
use hmlb.Flappy.Hub.Roster.{enroll-IsRoster, Fresh-id}
use hmlb.Flappy.Hub.Admission.{begin_countdown_total, place_racer_total, begun, with_race}
use hmlb.Flappy.Hub.Sending.{IsSound, IsSound-known}
use hmlb.Flappy.Wire.{RaceState, waiting, countdown, racing, finished}
use hmlb.Flappy.World.Defs.{World}
use hmlb.Flappy.Hub.Wiring.{IsUnused, enroll-IsWired}

snoc_ne : (ids : List ℕ) (id : ℕ) → ids ++ id ∷ [] ≢ []
snoc_ne [] id e = cc
snoc_ne (x ∷ ids) id e = cc

module _ {A : Type 0} ⦃f : Float A⦄ where
  -- The newcomer on the roster, with the race still as it was.
  abbrev pub newcomer : Session → Hub A → Hub A
  newcomer s h = record (enrolled s h) { next_id = s.id }

  IsCovered-insert :
      (s : Session) (h : Hub A) (w : World A)
      → IsCovered w.birds h.players
      → IsCovered w.birds (insert s.id s h.players)
  IsCovered-insert s h w covered k b e flying = elim (Bool-cases (s.id == k)) [
    | inl hit ↦ (s, rw (lookup-insert s.id k s h.players, hit) refl)
    | inr miss ↦
        let (t, old) = covered k b e flying in (t, rw (lookup-insert s.id k s h.players, miss) old)
  ]

  -- What is to be shown of a newcomer's race.
  abbrev pub Enters : Session → Hub A → Option (Hub A) → Type 0
  Enters s h r =
      (h' : Hub A) × (r ≡ some h')
      × IsHub h'
      × (lookup s.id h'.players ≡ some s)
      × IsSound h'.world
      × (h'.st ≢ waiting)

  module _ (s : Session) (now : ℕ) (h : Hub A)
      (roster : IsRoster
        (insert s.id s h.players)
        (h.order ++ s.id ∷ [])
        (insert s.name s.id h.names)
        s.id)
      (wired : IsWired (insert s.id s h.players) h.conns) (fresh : Fresh s.id h.order) where
    enter_waiting : Enters s h (enter_race waiting s now (newcomer s h))
    unfolding enter_race
    enter_waiting =
        let (w, info, runs, up) =
          begin_countdown_total now (newcomer s h) roster.keyed roster.distinct in
        (
          begun now (newcomer s h) w info,
          runs,
          record {
            roster = roster;
            wired = wired;
            race = (snoc_ne h.order s.id, (w, refl, up.0, up.1, up.2));
          },
          lookup-insert_self s.id s h.players,
          IsSound-known (some w) w refl up.0,
          λ e. cc,
        )

    enter_countdown :
        h.st ≡ countdown
        → IsRace countdown h.world h.order h.players
        → Enters s h (enter_race countdown s now (newcomer s h))
    unfolding enter_race admit_racer
    enter_countdown e (_, (w, known, ok, order, flying)) =
        let (v, info, runs, up) =
          place_racer_total s.id s (newcomer s h) w h.order known (ok, order, flying) fresh in
        (
          with_race (newcomer s h) v info,
          runs,
          record {
            roster = roster;
            wired = wired;
            race =
                subst (λ st. IsRace st (some v) (h.order ++ s.id ∷ []) (insert s.id s h.players))
                  (sym e) (snoc_ne h.order s.id, (v, refl, up.0, up.1, up.2));
          },
          lookup-insert_self s.id s h.players,
          IsSound-known (some v) v refl up.0,
          λ q. cc,
        )

    enter_racing :
        h.st ≡ racing
        → IsRace racing h.world h.order h.players
        → Enters s h (enter_race racing s now (newcomer s h))
    unfolding enter_race
    enter_racing e (w, known, ok, some_alive, covered) = (
      newcomer s h,
      refl,
      record {
        roster = roster;
        wired = wired;
        race =
            subst (λ st. IsRace st h.world (h.order ++ s.id ∷ []) (insert s.id s h.players)) (sym e)
              (w, known, ok, some_alive, IsCovered-insert s h w covered);
      },
      lookup-insert_self s.id s h.players,
      IsSound-known h.world w known ok,
      λ q. cc,
    )

    enter_finished :
        h.st ≡ finished
        → IsRace finished h.world h.order h.players
        → Enters s h (enter_race finished s now (newcomer s h))
    unfolding enter_race
    enter_finished e (_, (w, known, ok)) = (
      newcomer s h,
      refl,
      record {
        roster = roster;
        wired = wired;
        race =
            subst (λ st. IsRace st h.world (h.order ++ s.id ∷ []) (insert s.id s h.players)) (sym e)
              (snoc_ne h.order s.id, (w, known, ok));
      },
      lookup-insert_self s.id s h.players,
      IsSound-known h.world w known ok,
      λ q. cc,
    )

  pub enter_race_total :
      (st : RaceState) (s : Session) (now : ℕ) (h : Hub A)
      → h.st ≡ st
      → IsHub h
      → h.next_id < s.id
      → name_taken h.names s.name ≡ false
      → s.flap_count ≤ flap_rate_limit
      → IsOpen h.conns s.conn
      → IsUnused h.players s.conn
      → Enters s h (enter_race st s now (newcomer s h))
  enter_race_total st s now h e ok past free slow open_c unused = go st e (rw e at ok.race)
    where
      roster :
          IsRoster
            (insert s.id s h.players)
            (h.order ++ s.id ∷ [])
            (insert s.name s.id h.names)
            s.id
      roster = enroll-IsRoster ok.roster s past free slow

      wired : IsWired (insert s.id s h.players) h.conns
      wired = enroll-IsWired s h.players h.conns ok.wired open_c unused

      fresh : Fresh s.id h.order
      fresh = rw ok.roster.keyed at (Fresh-id ok.roster s.id past)

      go :
          (t : RaceState)
          → h.st ≡ t
          → IsRace t h.world h.order h.players
          → Enters s h (enter_race t s now (newcomer s h))
      go waiting d race = enter_waiting s now h roster wired fresh
      go countdown d race = enter_countdown s now h roster wired fresh d race
      go racing d race = enter_racing s now h roster wired fresh d race
      go finished d race = enter_finished s now h roster wired fresh d race
