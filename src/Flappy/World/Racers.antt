-- ===== src/Flappy/World/Racers.antt =====
-- Who flies: the birds under a join, a leave and a tick.
use hmlb.Prelude.{
  ℕ, ◌+◌, ◌<◌, ◌≡◌, ◌≢◌, refl, sym, ap, ◌∙◌, true, false, List, [], ◌∷◌, ◌++◌, some, none, Text,
  nat_eq, arith, inl, inr, ◌⊎◌, Option-cases, Bool-cases,
}
use hmlb.Prelude.All.{Fresh, Distinct, Distinct-snoc}
use hmlb.Prelude.Maps.{
  Map, keys, lookup, insert, has_key, Fresh-lookup, lookup-Fresh, keys-insert_new, keys-insert_old,
  keys-delete, lookup-insert_inv, has_key-lookup-none,
}
use hmlb.Prelude.Removal.{remove, Distinct-remove, remove_first-remove}
use hmlb.Flappy.Float.{Float}
use hmlb.Flappy.World.Defs.{
  BirdState, Pipe, World, new_world, new_bird, add_bird, remove_bird, kill_left, killed_left,
  alive_in,
}
use hmlb.Prelude.Words.{u64}
use hmlb.Flappy.World.Step.{passed, fly, land, score_pipes}
use hmlb.Flappy.World.Total.{IsWorld}

module _ {A : Type 0} ⦃f : Float A⦄ where
  pub new_world-IsWorld : (seed : ℕ) → IsWorld {A = A} (new_world seed)
  unfolding new_world
  new_world-IsWorld seed = record { keyed = refl; distinct = tt }

  -- A new id gets a bird in flight, behind the others.
  pub add_bird_new :
      (id : ℕ) (name : Text) (pal acc : ℕ) (w : World A)
      → lookup id w.birds ≡ none
      → add_bird id name pal acc w ≡ record w {
        birds = insert id (new_bird id name pal acc) w.birds;
        order = w.order ++ id ∷ [];
      }
  unfolding add_bird
  add_bird_new id name pal acc w e = rw (has_key-lookup-none id w.birds e, add_bird) refl

  pub add_bird-IsWorld :
      (id : ℕ) (name : Text) (pal acc : ℕ) (w : World A)
      → lookup id w.birds ≡ none
      → IsWorld w
      → IsWorld (add_bird id name pal acc w)
  add_bird-IsWorld id name pal acc w e ok =
      let fresh = Fresh-lookup id w.birds e in
      let grown = keys-insert_new id (new_bird id name pal acc) w.birds fresh in
      rw (add_bird_new id name pal acc w e) (record {
        keyed = grown ∙ ap (λ ks. ks ++ id ∷ []) ok.keyed;
        distinct = rw grown (Distinct-snoc (keys w.birds) id fresh ok.distinct);
      })

  -- A bird is in the map exactly under the ids of the join order.
  pub lookup-order :
      (id : ℕ) (w : World A) → IsWorld w → Fresh id w.order → lookup id w.birds ≡ none
  lookup-order id w ok fresh = lookup-Fresh id w.birds (rw ok.keyed fresh)

module _ {A : Type 0} where
  pub remove_bird-IsWorld : (id : ℕ) (w : World A) → IsWorld w → IsWorld (remove_bird id w)
  unfolding remove_bird
  remove_bird-IsWorld id w ok = elim (Bool-cases (has_key id w.birds)) [
    | inr absent ↦ rw (absent, remove_bird) ok
    | inl here ↦
        let d : Distinct w.order = rw ok.keyed at ok.distinct in
        rw (here, remove_bird)
          (record {
            keyed =
                keys-delete id w.birds
                ∙ ap (remove id) ok.keyed
                ∙ sym (remove_first-remove id w.order d);
            distinct = rw (keys-delete id w.birds) (Distinct-remove id (keys w.birds) ok.distinct);
          })
  ]

  pub kill_left-IsWorld : (id : ℕ) (w : World A) → IsWorld w → IsWorld (kill_left id w)
  unfolding kill_left
  kill_left-IsWorld id w ok = elim (Option-cases (lookup id w.birds)) [
    | inl absent ↦ rw (absent, kill_left) ok
    | inr (b, e) ↦ elim (Bool-cases b.dead) [
      | inl dead ↦ rw (e, kill_left, dead) ok
      | inr flying ↦
          let same = keys-insert_old id (killed_left w.tick b) b w.birds e in
          rw (e, kill_left, flying)
            (record { keyed = same ∙ ok.keyed; distinct = rw same ok.distinct })
    ]
  ]

  -- How the birds are after a leave, whether the leaver had one in flight or not.
  pub kill_left_cases :
      (id : ℕ) (w : World A)
      → ((kill_left id w ≡ w) × ((b : BirdState A) → lookup id w.birds ≡ some b → b.dead ≡ true))
        ⊎ ((b : BirdState A) × (lookup id w.birds ≡ some b)
            × (kill_left id w ≡ record w { birds = insert id (killed_left w.tick b) w.birds }))
  unfolding kill_left
  kill_left_cases id w = elim (Option-cases (lookup id w.birds)) [
    | inl absent ↦ inl (rw (absent, kill_left) refl, λ b e. cc)
    | inr (b, e) ↦ elim (Bool-cases b.dead) [
      | inl dead ↦ inl (rw (e, kill_left, dead) refl, λ c d. ground arith)
      | inr flying ↦ inr (b, e, ground arith)
    ]
  ]

  -- After a leave the leaver's bird is dead, and the others are as before.
  pub kill_left-flying :
      (id k : ℕ) (b : BirdState A) (w : World A)
      → lookup k (kill_left id w).birds ≡ some b
      → b.dead ≡ false
      → (lookup k w.birds ≡ some b) × (id ≢ k)
  kill_left-flying id k b w e flying = elim (kill_left_cases id w) [
    | inl (same, dead) ↦
        let old : lookup k w.birds ≡ some b = rw same at e in
        (old, λ eq. cc (dead b (rw (← eq) at old)))
    | inr (c, found, killed) ↦
        elim (lookup-insert_inv id k (killed_left w.tick c) b w.birds (rw killed at e)) [
          | inl (_, this) ↦ cc (ap (λ (u : BirdState A). u.dead) this)
          | inr (ne, old) ↦ (old, ne)
        ]
  ]

  pub alive_in_pos :
      (k : ℕ) (b : BirdState A) (m : Map ℕ (BirdState A))
      → lookup k m ≡ some b
      → b.dead ≡ false
      → 0 < alive_in m
  unfolding alive_in lookup
  alive_in_pos k b [] e flying = cc
  alive_in_pos k b ((j, c) ∷ m) e flying = ground (arith, alive_in_pos k b m)

  pub alive_in_inv :
      (m : Map ℕ (BirdState A))
      → 0 < alive_in m
      → Distinct (keys m)
      → (k : ℕ) × (b : BirdState A) × (lookup k m ≡ some b) × (b.dead ≡ false)
  unfolding alive_in lookup
  alive_in_inv [] h d = absurd (omega arith)
  alive_in_inv ((j, c) ∷ m) h d = elim (Bool-cases c.dead) [
    | inr flying ↦ (j, c, ground arith, flying)
    | inl dead ↦
        let (k, b, e, flying) = alive_in_inv m (ground arith) d.1 in
        (k, b, ground (arith, lookup-Fresh j m d.0), flying)
  ]

module _ {A : Type 0} ⦃f : Float A⦄ where
  pub score_pipes-dead : (ps : List (Pipe A)) (b : BirdState A) → (score_pipes ps b).dead ≡ b.dead
  unfolding score_pipes
  score_pipes-dead [] b = refl
  score_pipes-dead (p ∷ ps) b = elim (Bool-cases (passed b p)) [
    | inl scored ↦
        rw (scored, score_pipes)
          (score_pipes-dead ps
            (record b { score = b.score + 1; next_pipe_id = u64 (b.next_pipe_id + 1) }))
    | inr other ↦ rw (other, score_pipes) (score_pipes-dead ps b)
  ]

  -- Neither phase of a tick changes a dead bird.
  pub fly_dead :
      (tick : ℕ) (flaps : Map ℕ (Unit {0})) (id : ℕ) (b : BirdState A)
      → b.dead ≡ true
      → fly tick flaps id b ≡ b
  unfolding fly
  fly_dead tick flaps id b dead = rw (dead, fly) refl

  pub land_dead :
      (tick : ℕ) (ps : List (Pipe A)) (id : ℕ) (b : BirdState A)
      → b.dead ≡ true
      → land tick ps id b ≡ b
  unfolding land
  land_dead tick ps id b dead = rw (dead, land) refl
