-- ===== src/Flappy/Client/Net/Delivery.antt =====
-- What the render loop gets of what the server sends: the last_of snapshots, and the first failure.
use hmlb.Prelude.{
  ℕ, zero, suc, ◌+◌, ◌-◌, ◌≤◌, ◌≡◌, refl, sym, ap, ◌∙◌, true, List, [], ◌∷◌, ◌++◌, Option, none,
  some, length, ltb, drop, arith, inl, inr, Bool-cases, length-append, length-drop,
}
use mathlib.Core.List.{append_assoc, append-nil}
use hmlb.Flappy.Client.Game.{Sess, NetError, fatal, lost}
use hmlb.Flappy.Client.Net.{
  Net, Received, broken, garbled, unknown, snapshot_frame, welcome_frame, error_frame, offer,
  push_snap, first_error, fail, on_snapshot, on_welcome, on_error, read_loop,
}
use hmlb.Flappy.Const.{ring_len}
use hmlb.Flappy.Wire.{Snapshot}

module _ {ℓ} {B : Type ℓ} where
  -- The last items of a list, as many as that at most.
  abbrev pub last_of : ℕ → List B → List B
  last_of k xs = drop (length xs - k) xs

  drop-append : (i : ℕ) (xs ys : List B) → i ≤ length xs → drop i (xs ++ ys) ≡ drop i xs ++ ys
  drop-append zero xs ys h = refl
  drop-append (suc i) [] ys h = absurd (omega arith)
  drop-append (suc i) (x ∷ xs) ys h = drop-append i xs ys (omega arith)

  drop-nil : (i : ℕ) → drop {A = B} i [] ≡ []
  drop-nil zero = refl
  drop-nil (suc i) = refl

  drop-drop : (i j : ℕ) (xs : List B) → drop i (drop j xs) ≡ drop (i + j) xs
  drop-drop i zero xs = ap (λ k. drop k xs) (omega arith)
  drop-drop i (suc j) [] = drop-nil i ∙ sym (drop-nil (i + suc j))
  drop-drop i (suc j) (x ∷ xs) =
      let shift : i + suc j ≡ suc (i + j) = omega arith in
      drop-drop i j xs ∙ sym (ap (λ k. drop k (x ∷ xs)) shift)

  last_of-append : (k : ℕ) (xs ys : List B) → last_of k (last_of k xs ++ ys) ≡ last_of k (xs ++ ys)
  last_of-append k xs ys =
      let i = length xs - k in
      let whole : drop i (xs ++ ys) ≡ drop i xs ++ ys = drop-append i xs ys (omega arith) in
      ap (last_of k) (sym whole)
      ∙ drop-drop (length (drop i (xs ++ ys)) - k) i (xs ++ ys)
      ∙ ap (λ j. drop j (xs ++ ys)) (omega (arith, length-drop i (xs ++ ys), length-append xs ys))

module _ {A : Type 0} where
  -- The snapshots among the frames that are read before a read fails.
  abbrev pub snapshots : List (Received A) → List (Snapshot A)
  snapshots [] = []
  snapshots (broken ∷ rs) = []
  snapshots (garbled ∷ rs) = snapshots rs
  snapshots (unknown ∷ rs) = snapshots rs
  snapshots (snapshot_frame none ∷ rs) = snapshots rs
  snapshots (snapshot_frame (some s) ∷ rs) = s ∷ snapshots rs
  snapshots (welcome_frame o ∷ rs) = snapshots rs
  snapshots (error_frame o ∷ rs) = snapshots rs

  -- The first failure in them: the server's rejection, or a read that fails.
  abbrev pub verdict : List (Received A) → Option NetError
  verdict [] = none
  verdict (broken ∷ rs) = some lost
  verdict (garbled ∷ rs) = verdict rs
  verdict (unknown ∷ rs) = verdict rs
  verdict (snapshot_frame o ∷ rs) = verdict rs
  verdict (welcome_frame o ∷ rs) = verdict rs
  verdict (error_frame none ∷ rs) = verdict rs
  verdict (error_frame (some msg) ∷ rs) = some (fatal msg)

  full_push :
      (s : Snapshot A) (q : List (Snapshot A))
      → length q ≡ ring_len
      → offer s (drop 1 q) ≡ drop 1 (q ++ s ∷ [])
  unfolding offer
  full_push s [] e = absurd (omega arith)
  full_push s (x ∷ q) e = let room : ltb (length q) ring_len ≡ true = ground arith in rw room refl

  push_snap-newest :
      (s : Snapshot A) (n : Net A)
      → length n.snap_ch ≤ ring_len
      → (push_snap s n).snap_ch ≡ last_of ring_len (n.snap_ch ++ s ∷ [])
  unfolding push_snap
  push_snap-newest s n short =
      let q = n.snap_ch in
      elim (Bool-cases (ltb (length q) ring_len)) [
        | inl room ↦
            let none_over : length (q ++ s ∷ []) - ring_len ≡ 0 =
              ground (arith, length-append q (s ∷ [])) in
            rw (room, push_snap) (sym (ap (λ k. drop k (q ++ s ∷ [])) none_over))
        | inr full ↦
            let eight : length q ≡ ring_len = ground arith in
            let one_over : length (q ++ s ∷ []) - ring_len ≡ 1 =
              ground (arith, length-append q (s ∷ [])) in
            rw (full, push_snap)
              (full_push s q eight ∙ sym (ap (λ k. drop k (q ++ s ∷ [])) one_over))
      ]

  length-last_of : (xs : List (Snapshot A)) → length (last_of ring_len xs) ≤ ring_len
  length-last_of xs = omega (arith, length-drop (length xs - ring_len) xs)

  -- Where the channel holds the last_of of some snapshots, one that is read joins them.
  push_snap-next :
      (s : Snapshot A) (n : Net A) (all : List (Snapshot A))
      → n.snap_ch ≡ last_of ring_len all
      → (push_snap s n).snap_ch ≡ last_of ring_len (all ++ s ∷ [])
  push_snap-next s n all e =
      push_snap-newest s n (rw e (length-last_of all))
      ∙ ap (λ q. last_of ring_len (q ++ s ∷ [])) e
      ∙ last_of-append ring_len all (s ∷ [])

  -- Whatever the server sends, the snapshots that wait for the render loop are the newest `RingLen`
  -- of those that have arrived, in their order, if they were before; no other frame drops one.
  pub read_loop-newest :
      (rs : List (Received A)) (n : Net A) (sess : Sess) (all : List (Snapshot A))
      → n.snap_ch ≡ last_of ring_len all
      → (read_loop rs n sess).0.snap_ch ≡ last_of ring_len (all ++ snapshots rs)
  unfolding read_loop on_snapshot on_error fail
  read_loop-newest [] n sess all e = e ∙ ap (last_of ring_len) (sym (append-nil all))
  read_loop-newest (broken ∷ rs) n sess all e = e ∙ ap (last_of ring_len) (sym (append-nil all))
  read_loop-newest (garbled ∷ rs) n sess all e = read_loop-newest rs n sess all e
  read_loop-newest (unknown ∷ rs) n sess all e = read_loop-newest rs n sess all e
  read_loop-newest (snapshot_frame none ∷ rs) n sess all e = read_loop-newest rs n sess all e
  read_loop-newest (snapshot_frame (some s) ∷ rs) n sess all e =
      read_loop-newest rs (push_snap s n) sess (all ++ s ∷ []) (push_snap-next s n all e)
      ∙ ap (last_of ring_len) (append_assoc all (s ∷ []) (snapshots rs))
  read_loop-newest (welcome_frame o ∷ rs) n sess all e =
      read_loop-newest rs n (on_welcome o sess) all e
  read_loop-newest (error_frame none ∷ rs) n sess all e = read_loop-newest rs n sess all e
  read_loop-newest (error_frame (some msg) ∷ rs) n sess all e =
      read_loop-newest rs (fail (fatal msg) n) sess all e

  push_snap-err : (s : Snapshot A) (n : Net A) → (push_snap s n).err_ch ≡ n.err_ch
  unfolding push_snap
  push_snap-err s n = ground arith

  -- An error that stands in the channel stays.
  read_loop_err :
      (rs : List (Received A)) (n : Net A) (sess : Sess) (e : NetError)
      → n.err_ch ≡ some e
      → (read_loop rs n sess).0.err_ch ≡ some e
  unfolding read_loop on_snapshot on_error fail push_snap
  read_loop_err [] n sess e have = have
  read_loop_err (broken ∷ rs) n sess e have = ap (λ o. first_error o lost) have
  read_loop_err (garbled ∷ rs) n sess e have = read_loop_err rs n sess e have
  read_loop_err (unknown ∷ rs) n sess e have = read_loop_err rs n sess e have
  read_loop_err (snapshot_frame none ∷ rs) n sess e have = read_loop_err rs n sess e have
  read_loop_err (snapshot_frame (some s) ∷ rs) n sess e have =
      read_loop_err rs (push_snap s n) sess e (push_snap-err s n ∙ have)
  read_loop_err (welcome_frame o ∷ rs) n sess e have = read_loop_err rs n (on_welcome o sess) e have
  read_loop_err (error_frame none ∷ rs) n sess e have = read_loop_err rs n sess e have
  read_loop_err (error_frame (some msg) ∷ rs) n sess e have =
      read_loop_err rs (fail (fatal msg) n) sess e (ap (λ o. first_error o (fatal msg)) have)

  -- The error that the render loop finds is the first failure of the frames that have been read.
  pub read_loop-verdict :
      (rs : List (Received A)) (n : Net A) (sess : Sess)
      → n.err_ch ≡ none
      → (read_loop rs n sess).0.err_ch ≡ verdict rs
  unfolding read_loop on_snapshot on_error fail
  read_loop-verdict [] n sess e = e
  read_loop-verdict (broken ∷ rs) n sess e = ap (λ o. first_error o lost) e
  read_loop-verdict (garbled ∷ rs) n sess e = read_loop-verdict rs n sess e
  read_loop-verdict (unknown ∷ rs) n sess e = read_loop-verdict rs n sess e
  read_loop-verdict (snapshot_frame none ∷ rs) n sess e = read_loop-verdict rs n sess e
  read_loop-verdict (snapshot_frame (some s) ∷ rs) n sess e =
      read_loop-verdict rs (push_snap s n) sess (push_snap-err s n ∙ e)
  read_loop-verdict (welcome_frame o ∷ rs) n sess e = read_loop-verdict rs n (on_welcome o sess) e
  read_loop-verdict (error_frame none ∷ rs) n sess e = read_loop-verdict rs n sess e
  read_loop-verdict (error_frame (some msg) ∷ rs) n sess e =
      read_loop_err rs (fail (fatal msg) n) sess (fatal msg) (ap (λ o. first_error o (fatal msg)) e)
