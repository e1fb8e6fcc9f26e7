-- ===== src/Flappy/Hub/Roster.antt =====
-- The roster under a join and under a leave.
use mathlib.Core.Path.{subst}
use hmlb.Prelude.{
  ℕ, ◌≤◌, ◌<◌, ◌≡◌, ◌≢◌, sym, ap, ◌∙◌, false, List, [], ◌∷◌, ◌++◌, some, none, Text, nat_eq,
  text_eq, arith, inl, inr, Option-cases,
}
use hmlb.Prelude.All.{Fresh, Distinct-snoc}
use hmlb.Prelude.Maps.{
  Map, keys, lookup, insert, delete, Fresh-lookup, keys-insert_new, keys-delete, lookup-insert_self,
  lookup-insert_ne, lookup-insert_inv, lookup-delete_inv, lookup-delete_ne,
}
use hmlb.Prelude.Removal.{remove, remove_first, Distinct-remove, remove_first-remove}
use hmlb.Flappy.Const.{flap_rate_limit}
use hmlb.Flappy.Hub.Defs.{Session, name_taken}
use hmlb.Flappy.Hub.Invariant.{IsRoster}

module _ {players : Map ℕ Session} {order : List ℕ} {names : Map Text ℕ} {last : ℕ}
    (r : IsRoster players order names last) where
  -- An id past the last one is nobody's.
  pub lookup-past : (id : ℕ) → last < id → lookup id players ≡ none
  lookup-past id h = elim (Option-cases (lookup id players)) [
    | inl e ↦ e
    | inr (s, e) ↦ absurd (omega (arith, r.bounded id s e))
  ]

  pub Fresh-id : (id : ℕ) → last < id → Fresh id (keys players)
  Fresh-id id h = Fresh-lookup id players (lookup-past id h)

  -- A name that is not taken is no player's.
  pub name_ne :
      (name : Text)
      → name_taken names name ≡ false
      → (k : ℕ) (s : Session) → lookup k players ≡ some s
      → name ≢ s.name
  unfolding name_taken
  name_ne name free k s e same =
      ground (arith, r.named k s e, r.positive k s e, ap (λ (t : Text). lookup t names) same)

  pub enroll-IsRoster :
      (s : Session)
      → last < s.id
      → name_taken names s.name ≡ false
      → s.flap_count ≤ flap_rate_limit
      → IsRoster (insert s.id s players) (order ++ s.id ∷ []) (insert s.name s.id names) s.id
  enroll-IsRoster s past free slow = record {
    keyed =
        keys-insert_new s.id s players (Fresh-id s.id past) ∙ ap (λ ks. ks ++ s.id ∷ []) r.keyed;
    distinct = Distinct-snoc order s.id (rw r.keyed at (Fresh-id s.id past)) r.distinct;
    ids = λ k t e. elim (lookup-insert_inv s.id k s t players e) [
      | inl (same, this) ↦ ap (λ (u : Session). u.id) (sym this) ∙ same
      | inr (_, old) ↦ r.ids k t old
    ];
    positive = λ k t e. elim (lookup-insert_inv s.id k s t players e) [
      | inl (same, this) ↦ omega arith
      | inr (_, old) ↦ r.positive k t old
    ];
    bounded = λ k t e. elim (lookup-insert_inv s.id k s t players e) [
      | inl (same, this) ↦ omega arith
      | inr (_, old) ↦ omega (arith, r.bounded k t old)
    ];
    paced = λ k t e. elim (lookup-insert_inv s.id k s t players e) [
      | inl (_, this) ↦ subst (λ (u : Session). u.flap_count ≤ flap_rate_limit) this slow
      | inr (_, old) ↦ r.paced k t old
    ];
    named = λ k t e. elim (lookup-insert_inv s.id k s t players e) [
      | inl (same, this) ↦ rw (← this, ← same) (lookup-insert_self s.name s.id names)
      | inr (_, old) ↦
          lookup-insert_ne s.name t.name s.id names (name_ne s.name free k t old) ∙ r.named k t old
    ];
  }

  -- The names of two players differ.
  pub names_differ :
      (j k : ℕ) (s t : Session)
      → lookup j players ≡ some s
      → lookup k players ≡ some t
      → j ≢ k
      → s.name ≢ t.name
  names_differ j k s t e d ne same =
      ne (some_eq (sym (r.named j s e) ∙ ap (λ (n : Text). lookup n names) same ∙ r.named k t d))
    where
      some_eq : {a b : ℕ} → some a ≡ some b → a ≡ b
      some_eq h = cc

  pub depart-IsRoster :
      (id : ℕ) (s : Session)
      → lookup id players ≡ some s
      → IsRoster (delete id players) (remove_first id order) (delete s.name names) last
  depart-IsRoster id s e = record {
    keyed =
        keys-delete id players
        ∙ ap (remove id) r.keyed
        ∙ sym (remove_first-remove id order r.distinct);
    distinct = rw (remove_first-remove id order r.distinct) (Distinct-remove id order r.distinct);
    ids = λ k t d. r.ids k t (lookup-delete_inv id k t players d).1;
    positive = λ k t d. r.positive k t (lookup-delete_inv id k t players d).1;
    bounded = λ k t d. r.bounded k t (lookup-delete_inv id k t players d).1;
    paced = λ k t d. r.paced k t (lookup-delete_inv id k t players d).1;
    named = λ k t d.
        let (ne, old) = lookup-delete_inv id k t players d in
        lookup-delete_ne s.name t.name names (names_differ id k s t e old ne) ∙ r.named k t old;
  }
