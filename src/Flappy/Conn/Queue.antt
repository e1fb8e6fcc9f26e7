-- ===== src/Flappy/Conn/Queue.antt =====
-- What a send does to the queue.
use hmlb.Prelude.{
  ℕ, zero, suc, ◌≤◌, ◌<◌, ◌≡◌, refl, ap, ◌∙◌, false, List, [], ◌∷◌, ◌++◌, some, arith, inl, inr,
  Bool-cases, ltb, length, drop, length-append, length-drop,
}
use hmlb.Flappy.Conn.{Conn, enqueue, enqueue_loop, send_queue_len}
use hmlb.Flappy.Wire.{Frame}

module _ {A : Type 0} where
  drop-drop : (n : ℕ) (q : List (Frame A)) → drop n (drop 1 q) ≡ drop (suc n) q
  drop-drop zero [] = refl
  drop-drop zero (x ∷ q) = refl
  drop-drop (suc n) [] = refl
  drop-drop (suc n) (x ∷ q) = refl

  loop_drops :
      (n : ℕ) (b : Frame A) (q : List (Frame A))
      → length q < n
      → (k : ℕ) × (enqueue_loop n b q ≡ some (drop k q ++ b ∷ []))
        × (length (drop k q) < send_queue_len)
        × (length q < send_queue_len → k ≡ 0)
  unfolding enqueue_loop
  loop_drops zero b q h = absurd (omega arith)
  loop_drops (suc n) b q h = elim (Bool-cases (ltb (length q) send_queue_len)) [
    | inl room ↦ (0, rw (room, enqueue_loop) refl, ground arith, λ _. refl)
    | inr full ↦
        let (k, runs, short, _) = loop_drops n b (drop 1 q) (ground (arith, length-drop 1 q)) in
        (
          suc k,
          rw (full, enqueue_loop) (runs ∙ ap (λ r. some (r ++ b ∷ [])) (drop-drop k q)),
          rw (← drop-drop k q) short,
          λ room. absurd (ground arith),
        )
  ]

  -- A send on an open connection always succeeds: the new frame is the last one of the queue, the
  -- frames before it are the newest of the old ones in their order, none is dropped while there is
  -- room, and the queue stays within its capacity.
  pub enqueue-drops_oldest :
      (b : Frame A) (c : Conn A)
      → c.closed ≡ false
      → (k : ℕ) × (enqueue b c ≡ some (record c { send = drop k c.send ++ b ∷ [] }))
        × (length (drop k c.send ++ b ∷ []) ≤ send_queue_len)
        × (length c.send < send_queue_len → k ≡ 0)
  unfolding enqueue
  enqueue-drops_oldest b c h =
      let (k, runs, short, keeps) = loop_drops (suc (length c.send)) b c.send (omega arith) in
      (k, ground (arith, runs), ground (arith, length-append (drop k c.send) (b ∷ [])), keeps)
