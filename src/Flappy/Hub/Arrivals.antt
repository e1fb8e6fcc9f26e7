-- ===== src/Flappy/Hub/Arrivals.antt =====
-- What a join does to the other connections, and where it leaves its own.
use hmlb.Prelude.{
  ℕ, ◌+◌, ◌<◌, ◌^◌, ◌≡◌, ◌≢◌, refl, sym, ap, ◌∙◌, Bool, some, none, nat_eq, text_eq, inl, inr, ◌==◌,
  arith, Bool-cases, Option-cases, ◌>>=◌, leb, length, Text, text,
}
use hmlb.Prelude.Options.{>>=-eq-some}
use hmlb.Prelude.Maps.{
  Map, lookup, lookup-insert, lookup-insert_inv, lookup-insert_self, lookup-insert_ne,
}
use hmlb.Prelude.Words.{u64, u64-small}
use hmlb.Flappy.Conn.{Conn, close, close_at, enqueue_to}
use hmlb.Flappy.Float.{Float}
use hmlb.Flappy.Name.{validate_name}
use hmlb.Flappy.Hub.Defs.{Session, Hub, unique_name}
use hmlb.Flappy.Hub.Frames.{broadcast, reject, send_welcome}
use hmlb.Flappy.Hub.Handlers.{
  JoinReply, joined, refused, new_session, assign_bird, enrolled, enter_race, admit, handle_join,
}
use hmlb.Flappy.Hub.Invariant.{IsHub}
use hmlb.Flappy.Hub.Phase.{some_injective}
use hmlb.Flappy.Hub.Touch.{
  Touch, Same, Same-refl, Same-trans, broadcast-Same, send_welcome-Same, enter_race-Same,
  enqueue_to-Touch,
}
use hmlb.Flappy.Hub.Bystander.{Spares, Same-Spares}
use hmlb.Flappy.Hub.Seats.{Spares-trans, Spares-of_eq}
use hmlb.Flappy.Hub.Wiring.{IsUnused}
use hmlb.Flappy.Store.Defs.{lookup_bird}
use hmlb.Flappy.Wire.{error}

module _ {A : Type 0} ⦃f : Float A⦄ where
  -- A connection that is closed, or one whose player is new: the others are spared.
  pub close_at-others :
      (c d : ℕ) (m m' : Map ℕ (Conn A)) → close_at c m ≡ some m' → d ≢ c → lookup d m' ≡ lookup d m
  unfolding close_at
  close_at-others c d m m' runs ne =
      let (k, _, e) = >>=-eq-some (lookup c m) _ runs in
      ap (λ x. lookup d x) (sym (some_injective e))
      ∙ lookup-insert_ne c d (close k) m (λ h. ne (sym h))

  pub close_at-known :
      (c : ℕ) (m m' : Map ℕ (Conn A))
      → close_at c m ≡ some m'
      → (k : Conn A) × (lookup c m' ≡ some k)
  unfolding close_at
  close_at-known c m m' runs =
      let (k, _, e) = >>=-eq-some (lookup c m) _ runs in
      (close k, ap (λ x. lookup c x) (sym (some_injective e)) ∙ lookup-insert_self c (close k) m)

  -- Only the connections change, and only that one.
  pub conns-Spares :
      (d : ℕ) (h : Hub A) (m : Map ℕ (Conn A))
      → lookup d m ≡ lookup d h.conns
      → Spares d h (record h { conns = m })
  conns-Spares d h m same = record {
    absent = λ e. same ∙ e;
    stays_open = λ o. (o.0, same ∙ o.1, o.2);
    unused = λ u. u;
    seated = λ k s here own. (s, here, own);
  }

  touched-Spares :
      (d : ℕ) (h : Hub A) (m : Map ℕ (Conn A))
      → Touch h.conns m
      → Spares d h (record h { conns = m })
  touched-Spares d h m touch = Same-Spares d h (record h { conns = m }) (refl, touch)

  -- A refused connection is known, and has no player, still.
  abbrev pub IsRefused : ℕ → Hub A → Type 0
  IsRefused c h = ((k : Conn A) × (lookup c h.conns ≡ some k)) × IsUnused h.players c

  reject_others :
      (c d : ℕ) (msg : Text) (h h' : Hub A)
      → IsUnused h.players c
      → reject c msg h ≡ some h'
      → (d ≢ c → Spares d h h') × IsRefused c h'
  unfolding reject
  reject_others c d msg h h' unused runs =
      let (m₁, tells, rest) = >>=-eq-some (enqueue_to c (error msg) h.conns) _ runs in
      let (m₂, shuts, e) = >>=-eq-some (close_at c m₁) _ rest in
      let h₁ = record h { conns = m₁ } in
      let h₂ = record h { conns = m₂ } in
      let same : h₂ ≡ h' = some_injective e in
      (
        λ ne.
            Spares-of_eq d h h₂ h'
              (Spares-trans d h h₁ h₂
                (touched-Spares d h m₁ (enqueue_to-Touch c (error msg) h.conns m₁ tells))
                (conns-Spares d h₁ m₂ (close_at-others c d m₁ m₂ shuts ne)))
              e,
        rw (← same) (close_at-known c m₁ m₂ shuts, unused),
      )

  -- A new player on connection `c`, under an id that nobody has.
  enrolled-Spares :
      (d : ℕ) (s : Session) (h : Hub A)
      → lookup s.id h.players ≡ none
      → d ≢ s.conn
      → Spares d h (enrolled s h)
  enrolled-Spares d s h fresh ne = record {
    absent = λ e. e;
    stays_open = λ o. o;
    unused = λ u k x found. elim (lookup-insert_inv s.id k s x h.players found) [
      | inl (_, this) ↦ λ e. ne (sym e ∙ sym (ap (λ (y : Session). y.conn) this))
      | inr (_, old) ↦ u k x old
    ];
    seated = λ k x found of_d. elim (Bool-cases (s.id == k)) [
      | inl hit ↦
          cc (sym fresh ∙ ap (λ j. lookup j h.players) ((nat_eq.beq_iff s.id k).0 hit) ∙ found)
      | inr miss ↦ (x, rw (lookup-insert s.id k s h.players, miss) found, of_d)
    ];
  }

  -- What a join does to its own connection: it gets a player, or it is refused.
  abbrev pub Seats : ℕ → JoinReply → Hub A → Type 0
  Seats c (joined id) h = (s : Session) × (lookup id h.players ≡ some s) × (s.conn ≡ c)
  Seats c (refused msg) h = IsRefused c h

  assign_bird-Same : (name : Text) (h : Hub A) → Same h (assign_bird name h).1
  unfolding assign_bird
  assign_bird-Same name h = elim (Bool-cases (lookup_bird name h.store).1) [
    | inl known ↦ rw (known, assign_bird) (Same-refl h)
    | inr new ↦ rw (new, assign_bird) (Same-refl h)
  ]

  id_free :
      (h : Hub A) → IsHub h → h.next_id + 1 < 2 ^ 64 → lookup (u64 (h.next_id + 1)) h.players ≡ none
  id_free h ok room = elim (Option-cases (lookup (u64 (h.next_id + 1)) h.players)) [
    | inl free ↦ free
    | inr (s, taken) ↦ absurd (
        omega
          (arith, ok.roster.bounded (u64 (h.next_id + 1)) s taken, u64-small (h.next_id + 1) room))
  ]

  admit-Seats :
      (now sent c d : ℕ) (name : Text) (h : Hub A) (r : Hub A × JoinReply)
      → IsHub h
      → h.next_id + 1 < 2 ^ 64
      → admit now sent c name h ≡ some r
      → (d ≢ c → Spares d h r.0) × Seats c r.1 r.0
  unfolding admit
  admit-Seats now sent c d name h r ok room runs =
      let id = u64 (h.next_id + 1) in
      let numbered = record h { next_id = id } in
      let (bird, h₁) = assign_bird name numbered in
      let s = new_session id name bird c in
      let g = enrolled s h₁ in
      let (h₂, enters, rest₂) = >>=-eq-some (enter_race h₁.st s now g) _ runs in
      let (h₃, greets, rest₃) = >>=-eq-some (send_welcome s now h₂) _ rest₂ in
      let (h₄, tells, rest₄) = >>=-eq-some (broadcast sent h₃) _ rest₃ in
      let named : Same h h₁ = assign_bird-Same name numbered in
      let after : Same g h₄ = Same-trans g h₂ h₄ (enter_race-Same h₁.st s now g h₂ enters) (
        Same-trans h₂ h₃ h₄ (send_welcome-Same s now h₂ h₃ greets)
          (broadcast-Same sent h₃ h₄ tells)) in
      let fresh : lookup id h₁.players ≡ none = ap (λ m. lookup id m) named.0 ∙ id_free h ok room in
      let done : (h₄, joined id) ≡ r = some_injective rest₄ in
      rw (← done) (
        λ ne.
            Spares-trans d h h₁ h₄ (Same-Spares d h h₁ named)
              (Spares-trans d h₁ g h₄ (enrolled-Spares d s h₁ fresh ne) (Same-Spares d g h₄ after)),
        (s, ap (λ m. lookup id m) after.0 ∙ lookup-insert_self id s h₁.players, refl),
      )

  pub handle_join-Seats :
      (is_print : ℕ → Bool) (now sent c d : ℕ) (name : Text) (h : Hub A) (r : Hub A × JoinReply)
      → IsHub h
      → h.next_id + 1 < 2 ^ 64
      → IsUnused h.players c
      → handle_join is_print now sent c name h ≡ some r
      → (d ≢ c → Spares d h r.0) × Seats c r.1 r.0
  unfolding handle_join
  handle_join-Seats is_print now sent c d name h r ok room unused runs =
      elim (Bool-cases (leb h.max_players (length h.players))) [
        | inl full ↦
            rejected (text "server full") (text "server full") (rw (full, handle_join) at runs)
        | inr space ↦ elim (Bool-cases (validate_name is_print name).1) [
          | inr bad ↦
              rejected (text "please pick a name (1-16 characters)") (text "invalid name")
                (rw (space, handle_join, bad) at runs)
          | inl fine ↦
              let (name', _, admits) =
                >>=-eq-some (unique_name h.names (validate_name is_print name).0) _
                  (rw (space, handle_join, fine) at runs) in
              admit-Seats now sent c d name' h r ok room admits
        ]
      ]
    where
      rejected :
          (msg why : Text)
          → (reject c msg h >>= λ h'. some (h', refused why)) ≡ some r
          → (d ≢ c → Spares d h r.0) × Seats c r.1 r.0
      rejected msg why runs =
          let (h₁, rejects, done) = >>=-eq-some (reject c msg h) _ runs in
          let same : (h₁, refused why) ≡ r = some_injective done in
          rw (← same) (reject_others c d msg h h₁ unused rejects)
