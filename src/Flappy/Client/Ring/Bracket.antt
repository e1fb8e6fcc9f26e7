-- ===== src/Flappy/Client/Ring/Bracket.antt =====
-- The ring stays short and in the order of time, and a rendered time lies within its bracket.
use hmlb.Prelude.{
  ℕ, ◌≤◌, ◌<◌, ◌≡◌, refl, ap, List, [], ◌∷◌, ◌++◌, Option, none, some, ltb, leb, if◌then◌else◌,
  last?, length, drop, arith, inl, inr, Bool-cases, length-append, length-drop,
}
use hmlb.Prelude.All.{All}
use hmlb.Flappy.Const.{ring_len}
use hmlb.Flappy.Client.Ring.{push, bracket_from, first}
use hmlb.Flappy.Wire.{Snapshot}

module _ {A : Type 0} where
  -- Each snapshot is later than the one before it.
  abbrev pub IsInOrder : List (Snapshot A) → Type 0
  IsInOrder [] = Unit
  IsInOrder (s ∷ []) = Unit
  IsInOrder (s ∷ t ∷ ss) = (s.now < t.now) × IsInOrder (t ∷ ss)

  abbrev IsLater : ℕ → Option (Snapshot A) → Type 0
  IsLater now none = Unit {0}
  IsLater now (some l) = l.now < now

  IsInOrder-snoc :
      (ss : List (Snapshot A)) (s : Snapshot A)
      → IsInOrder ss
      → IsLater s.now (last? ss)
      → IsInOrder (ss ++ s ∷ [])
  IsInOrder-snoc [] s ok h = tt
  IsInOrder-snoc (r ∷ []) s ok h = (h, tt)
  IsInOrder-snoc (r ∷ t ∷ ss) s ok h = (ok.0, IsInOrder-snoc (t ∷ ss) s ok.1 h)

  IsInOrder-drop : (ss : List (Snapshot A)) → IsInOrder ss → IsInOrder (drop 1 ss)
  IsInOrder-drop [] ok = tt
  IsInOrder-drop (s ∷ []) ok = tt
  IsInOrder-drop (s ∷ t ∷ ss) ok = ok.1

  abbrev pub IsRing : List (Snapshot A) → Type 0
  IsRing ss = IsInOrder ss × (length ss ≤ ring_len)

  kept-IsRing :
      (s : Snapshot A) (ss : List (Snapshot A))
      → IsRing ss
      → IsLater s.now (last? ss)
      → IsRing
          (if ltb ring_len (length (ss ++ s ∷ [])) then drop 1 (ss ++ s ∷ []) else ss ++ s ∷ [])
  kept-IsRing s ss ok h =
      let order = IsInOrder-snoc ss s ok.0 h in
      elim (Bool-cases (ltb ring_len (length (ss ++ s ∷ [])))) [
        | inl full ↦ rw full (
          IsInOrder-drop (ss ++ s ∷ []) order,
          omega (arith, ok.1, length-drop 1 (ss ++ s ∷ []), length-append ss (s ∷ [])),
        )
        | inr room ↦ rw room (order, ground arith)
      ]

  -- `Push` keeps the ring within its length and its snapshots in the order of the server's time.
  pub push-IsRing : (s : Snapshot A) (ss : List (Snapshot A)) → IsRing ss → IsRing (push s ss)
  unfolding push
  push-IsRing s ss ok = go (last? ss) refl
    where
      kept : List (Snapshot A)
      kept = if ltb ring_len (length (ss ++ s ∷ [])) then drop 1 (ss ++ s ∷ []) else ss ++ s ∷ []

      go : (o : Option (Snapshot A)) → last? ss ≡ o → IsRing (push s ss)
      go none e = rw (e, push) (kept-IsRing s ss ok (rw e tt))
      go (some l) e = elim (Bool-cases (leb s.now l.now)) [
        | inl stale ↦ rw (e, push, stale) ok
        | inr new ↦ rw (e, push, new) (kept-IsRing s ss ok (rw e (ground arith)))
      ]

  -- In a ring in order, what follows a snapshot that is too late is too late.
  All-later :
      (t : ℕ) (s : Snapshot A) (ss : List (Snapshot A))
      → t < s.now
      → IsInOrder (s ∷ ss)
      → All (λ (x : Snapshot A). t < x.now) (s ∷ ss)
  All-later t s [] h ok = (h, tt)
  All-later t s (r ∷ ss) h ok = (h, All-later t r ss (omega (arith, ok.0)) ok.1)

  -- The ring is cut behind the first end of the bracket: what stands before the cut is not after
  -- that time, what stands behind it is, and the second end is the first of that.
  abbrev pub IsCut : ℕ → List (Snapshot A) → Snapshot A × Option (Snapshot A) → Type 0
  IsCut t ring r =
      (before after : List (Snapshot A)) × (ring ≡ before ++ r.0 ∷ after)
      × All (λ (x : Snapshot A). x.now ≤ t) (before ++ r.0 ∷ [])
      × All (λ (x : Snapshot A). t < x.now) after
      × (r.1 ≡ first after)

  around :
      (t : ℕ) (s₀ : Snapshot A) (ss : List (Snapshot A))
      → IsInOrder (s₀ ∷ ss)
      → s₀.now ≤ t
      → IsCut t (s₀ ∷ ss) (bracket_from t s₀ (first ss) ss)
  unfolding bracket_from
  around t s₀ [] ok h = ([], [], refl, (h, tt), tt, refl)
  around t s₀ (r ∷ ss) ok h = elim (Bool-cases (leb r.now t)) [
    | inl early ↦
        let (before, after, cut, low, high, second) = around t r ss ok.1 (ground arith) in
        rw (early, bracket_from) (s₀ ∷ before, after, ap (◌∷◌ s₀) cut, (h, low), high, second)
    | inr late ↦
        rw (late, bracket_from)
          ([], r ∷ ss, refl, (h, tt), All-later t r ss (ground arith) ok.1, refl)
  ]

  -- In a ring in the order of time whose oldest snapshot is not after that time, the bracket's
  -- first end is the last snapshot that is not after that time, and its second end is the one
  -- behind it, the first that is after that time, or none if there is none.
  pub bracket_from-around :
      (t : ℕ) (s : Snapshot A) (ss : List (Snapshot A))
      → IsInOrder (s ∷ ss)
      → s.now ≤ t
      → (before after : List (Snapshot A)) × (s ∷ ss
          ≡ before ++ (bracket_from t s none (s ∷ ss)).0 ∷ after)
        × All (λ (x : Snapshot A). x.now ≤ t) (before ++ (bracket_from t s none (s ∷ ss)).0 ∷ [])
        × All (λ (x : Snapshot A). t < x.now) after
        × ((bracket_from t s none (s ∷ ss)).1 ≡ first after)
  unfolding bracket_from
  bracket_from-around t s ss ok h = elim (Bool-cases (leb s.now t)) [
    | inl early ↦ rw (early, bracket_from) (around t s ss ok h)
    | inr late ↦ absurd (ground arith)
  ]
