-- ===== src/Flappy/Hub/Departure.antt =====
-- A player off the roster: what still holds, and whose connection it was.
use hmlb.Prelude.{
  ℕ, ◌≡◌, ◌≢◌, refl, sym, ◌∙◌, true, false, List, [], ◌∷◌, some, nat_eq, text_eq, arith, nat_beq,
  length,
}
use hmlb.Prelude.Maps.{Map, keys, lookup, delete, lookup-delete_inv, has_key-lookup-some}
use hmlb.Prelude.Removal.{remove_first}
use hmlb.Flappy.Float.{Float}
use hmlb.Flappy.Hub.Defs.{Session, Hub}
use hmlb.Flappy.Hub.Invariant.{IsRoster, IsWired, IsHub}
use hmlb.Flappy.Hub.Wiring.{IsUnused}
use hmlb.Flappy.Hub.Roster.{depart-IsRoster}
use hmlb.Flappy.World.Defs.{BirdState, World, remove_bird, racer_count, is_racer}
use hmlb.Flappy.World.Total.{IsWorld}

-- An empty map has an empty order, and the other way round.
pub order_nil {ℓ} :
    {V : Type ℓ} (m : Map ℕ V) (order : List ℕ)
    → keys m ≡ order
    → nat_beq (length m) 0 ≡ true
    → order ≡ []
order_nil [] order e h = sym e
order_nil (p ∷ m) order e h = ground arith

pub order_cons {ℓ} :
    {V : Type ℓ} (m : Map ℕ V) (order : List ℕ)
    → keys m ≡ order
    → nat_beq (length m) 0 ≡ false
    → order ≢ []
order_cons [] order e h = cc
order_cons ((k, v) ∷ m) order e h = λ d. cc (e ∙ d)

module _ {A : Type 0} where
  pub is_racer_known :
      (id : ℕ) (b : BirdState A) (w : World A) → lookup id w.birds ≡ some b → is_racer id w ≡ true
  unfolding is_racer
  is_racer_known id b w e = has_key-lookup-some id w.birds b e

  -- The line-up without a racer.
  pub removed :
      (id : ℕ) (b : BirdState A) (w : World A)
      → lookup id w.birds ≡ some b
      → remove_bird id w ≡ record w { birds = delete id w.birds; order = remove_first id w.order }
  unfolding remove_bird
  removed id b w e = rw (has_key-lookup-some id w.birds b e, remove_bird) refl

  pub racers_none : (w : World A) → IsWorld w → nat_beq (racer_count w) 0 ≡ true → w.order ≡ []
  unfolding racer_count
  racers_none w ok e = order_nil w.birds w.order ok.keyed e

  pub racers_some : (w : World A) → IsWorld w → nat_beq (racer_count w) 0 ≡ false → w.order ≢ []
  unfolding racer_count
  racers_some w ok e = order_cons w.birds w.order ok.keyed e

module _ {A : Type 0} ⦃f : Float A⦄ (s : Session) (h : Hub A) (ok : IsHub h)
    (here : lookup s.id h.players ≡ some s) where
  pub left-IsRoster :
      IsRoster (delete s.id h.players) (remove_first s.id h.order) (delete s.name h.names) h.next_id
  left-IsRoster = depart-IsRoster ok.roster s.id s here

  pub left-IsWired : IsWired (delete s.id h.players) h.conns
  left-IsWired = record {
    open_conn = λ k t e. ok.wired.open_conn k t (lookup-delete_inv s.id k t h.players e).1;
    injective = λ j k t u d e.
        ok.wired.injective j k t u (lookup-delete_inv s.id j t h.players d).1
          (lookup-delete_inv s.id k u h.players e).1;
  }

  -- The leaver's connection is nobody else's.
  pub left-IsUnused : IsUnused (delete s.id h.players) s.conn
  left-IsUnused k t e same =
      let (ne, old) = lookup-delete_inv s.id k t h.players e in
      ne (ok.wired.injective s.id k s t here old (sym same))
