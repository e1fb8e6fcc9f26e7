-- ===== src/Openhands/Memory.antt =====
-- What the proxy promises, seen from outside: it is a memory from threads to conversations.
use mathlib.Core.Path.{fun_ext}
use hmlb.Prelude.{
  ℕ, ◌≡◌, ◌≢◌, refl, sym, ap, ◌∙◌, Bool, true, ◌&&◌, ◌||◌, [], ◌∷◌, Option, some, none, Text,
  text_eq, ◌==◌, inl, inr, Bool-cases, Option-cases, if◌then◌else◌, from_option, leb,
}
use hmlb.Prelude.Maps.{lookup, insert, lookup-insert}
use hmlb.Http.{Request, Response, Sent, failed, answered, get_header}
use hmlb.Openhands.Store.{Entries, ConvStore, is_empty, set_id, write_entry, save_store}
use hmlb.Openhands.Thread.{Runtime, extract_thread_key}
use hmlb.Openhands.Handler.{
  Upstream, Reply, http_error, relayed, aborted, conv_header, conv_of, closed, up_request,
  do_forward, recall, remember, relay, healed, retried, forwarded, handle, target,
}
use hmlb.Openhands.Copying.{IsCanonical, NetLaws, surfaced}

abbrev pub Memory : Type 0
Memory = Text → Option Text

-- What a store remembers.
abbrev pub view : ConvStore → Memory
view s k = lookup k (from_option [] s.entries)

-- A memory that has learnt a thread's id, if there is a thread and an id.
abbrev pub learn : Text → Text → Memory → Memory
learn key id f k = if is_empty key || is_empty id then f k else if key == k then some id else f k

pub learn_nothing : (key : Text) (f : Memory) → f ≡ learn key [] f
learn_nothing [] f = refl
learn_nothing (c ∷ key) f = refl

abbrev pub IsLoaded : ConvStore → Type 0
IsLoaded s = (m : Entries) × (s.entries ≡ some m)

save_store-entries : (m : Entries) (s : ConvStore) → (save_store m s).entries ≡ s.entries
unfolding save_store
save_store-entries m s = elim (Bool-cases (is_empty s.path)) [
  | inl off ↦ rw (off, save_store) refl
  | inr on ↦ rw (on, save_store) refl
]

-- The text of a full id, found or not.
found_id :
    (o : Option Text) (d : ℕ) (id : Text) → (from_option [] o == d ∷ id) ≡ true → o ≡ some (d ∷ id)
found_id none d id h = cc ((text_eq.beq_iff [] (d ∷ id)).0 h)
found_id (some v) d id h = ap some ((text_eq.beq_iff v (d ∷ id)).0 h)

learnt_twice :
    (c d : ℕ) (key id : Text) (s : ConvStore)
    → view s (c ∷ key) ≡ some (d ∷ id)
    → view s ≡ learn (c ∷ key) (d ∷ id) (view s)
learnt_twice c d key id s old = fun_ext λ k. elim (Bool-cases (c ∷ key == k)) [
  | inl hit ↦ rw hit (ap (view s) (sym ((text_eq.beq_iff (c ∷ key) k).0 hit)) ∙ old)
  | inr miss ↦ rw miss refl
]

view-entries : (s : ConvStore) (m : Entries) → s.entries ≡ some m → view s ≡ (λ k. lookup k m)
view-entries s m e = ap (λ o k. lookup k (from_option [] o)) e

learnt_new :
    (c d : ℕ) (key id : Text) (s t : ConvStore) (m : Entries)
    → s.entries ≡ some m
    → t.entries ≡ some (insert (c ∷ key) (d ∷ id) m)
    → view t ≡ learn (c ∷ key) (d ∷ id) (view s)
learnt_new c d key id s t m e new = fun_ext λ k.
    ap (λ (f : Memory). f k) (view-entries t (insert (c ∷ key) (d ∷ id) m) new)
    ∙ lookup-insert (c ∷ key) k (d ∷ id) m
    ∙ ap (λ (f : Memory). learn (c ∷ key) (d ∷ id) f k) (sym (view-entries s m e))

pub set_id-view :
    (key id : Text) (s : ConvStore)
    → IsLoaded s
    → (s' : ConvStore) × (set_id key id s ≡ some s')
      × IsLoaded s'
      × (view s' ≡ learn key id (view s))
unfolding set_id write_entry
set_id-view [] id s ok = (s, refl, ok, refl)
set_id-view (c ∷ key) [] s ok = (s, refl, ok, refl)
set_id-view (c ∷ key) (d ∷ id) s (m, e) =
    elim (Bool-cases (from_option [] (lookup (c ∷ key) (from_option [] s.entries)) == d ∷ id)) [
      | inl same ↦
          (s, rw (same, set_id) refl, (m, e), learnt_twice c d key id s (found_id _ d id same))
      | inr new ↦
          let m' = insert (c ∷ key) (d ∷ id) m in
          let s' = save_store m' (record s { entries = some m' }) in
          let stored : s'.entries ≡ some m' =
            save_store-entries m' (record s { entries = some m' }) in
          (
            s',
            rw (new, set_id) (ap (λ o. write_entry (c ∷ key) (d ∷ id) o s) e),
            (m', stored),
            learnt_new c d key id s s' m e stored,
          )
    ]

-- The conversation's id that a reply shows to the caller.
abbrev pub told : Reply → Text
told (http_error code msg) = []
told (relayed r) = get_header conv_header r.headers
told aborted = []

module _ {S : Type 0} (rt : Runtime) (up : Upstream S) where
  -- The thread of a request.
  abbrev pub thread : Request → Text
  thread r = elim r.body [ none ↦ [] | some body ↦ extract_thread_key rt body ]

  -- A result whose store is the old one with what the reply shows learnt.
  abbrev pub Learns : Text → ConvStore → ConvStore × Reply × S → Type 0
  Learns key s h = IsLoaded h.0 × (h.1 ≢ aborted) × (view h.0 ≡ learn key (told h.1) (view s))

  remember-view :
      (key id : Text) (s : ConvStore)
      → IsLoaded s
      → (s' : ConvStore) × (remember rt up key id s ≡ some s')
        × IsLoaded s'
        × (view s' ≡ learn key id (view s))
  unfolding remember
  remember-view [] id s ok = (s, refl, ok, refl)
  remember-view (c ∷ key) [] s ok = (s, refl, ok, refl)
  remember-view (c ∷ key) (d ∷ id) s ok = set_id-view (c ∷ key) (d ∷ id) s ok

  relay-Learns :
      NetLaws rt up
      → (key id : Text) (r : Response) (s : ConvStore) (st : S) → IsCanonical r.headers
      → IsLoaded s
      → Learns key s (relay rt up key id r s st)
  unfolding relay
  relay-Learns laws key id r s st names ok =
      let (s', done, ok', sees) = remember-view key id s ok in
      rw (done, relay)
        (
          ok',
          λ e. cc,
          sees
              ∙ ap (λ i. learn key i (view s))
                  (sym (surfaced rt.fold laws.folds id r.headers names)),
        )

  healed-Learns :
      NetLaws rt up
      → (key : Text) (first : Response) (again : Sent) (s : ConvStore) (st : S)
      → IsCanonical first.headers
      → ((r : Response) → again ≡ answered r → IsCanonical r.headers)
      → IsLoaded s
      → Learns key s (healed rt up key first again s st)
  unfolding healed
  healed-Learns laws key first (failed e) s st names names' ok =
      relay-Learns laws key (conv_of first) (closed first) s st names ok
  healed-Learns laws key first (answered r) s st names names' ok =
      relay-Learns laws key (conv_of r) r s st (names' r refl) ok

  pub do_forward-names :
      NetLaws rt up
      → (r : Request) (body id : Text) (st : S) (resp : Response)
      → (do_forward rt up r body id st).0 ≡ answered resp
      → IsCanonical resp.headers
  unfolding do_forward
  do_forward-names laws r body id st resp e =
      elim (Option-cases (up.refuse r.method (target rt up r))) [
        | inl fine ↦ laws.names (up_request rt up r body id) st resp (rw (fine, do_forward) at e)
        | inr (msg, bad) ↦ cc (rw (bad, do_forward) at e)
      ]

  forwarded-Learns :
      NetLaws rt up
      → (key : Text) (had : Bool) (r : Request) (body : Text) (s : ConvStore) (sent : Sent) (st : S)
      → ((resp : Response) → sent ≡ answered resp → IsCanonical resp.headers)
      → IsLoaded s
      → Learns key s (forwarded rt up key had r body s sent st)
  unfolding forwarded retried
  forwarded-Learns laws key had r body s (failed e) st names ok =
      (ok, λ h. cc, learn_nothing key (view s))
  forwarded-Learns laws key had r body s (answered resp) st names ok =
      elim (Bool-cases (had && leb 400 resp.status)) [
        | inr fine ↦
            rw (fine, forwarded)
              (relay-Learns laws key (conv_of resp) resp s st (names resp refl) ok)
        | inl stale ↦
            rw (stale, forwarded)
              (healed-Learns laws key resp (do_forward rt up r body [] st).0 s
                (do_forward rt up r body [] st).1 (names resp refl)
                (λ again e. do_forward-names laws r body [] st again e) ok)
      ]

  -- With the laws of net/http, a request to a proxy whose store is loaded leaves it loaded and does
  -- not panic, and what the store remembers afterwards is what it remembered before, with the
  -- conversation's id that the caller is shown learnt for the request's thread.
  pub handle-Learns :
      NetLaws rt up
      → (read_error : Text) (s : ConvStore) (r : Request) (st : S) → IsLoaded s
      → Learns (thread r) s (handle rt up read_error s r st)
  unfolding handle
  handle-Learns laws read_error s r st ok = elim (Option-cases r.body) [
    | inl unread ↦ rw (unread, handle) (ok, λ e. cc, refl)
    | inr (body, read) ↦
        let key = extract_thread_key rt body in
        let sent = do_forward rt up r body (recall rt up key s).0 st in
        rw (read, handle)
          (forwarded-Learns laws key (recall rt up key s).1 r body s sent.0 sent.1
            (λ resp e. do_forward-names laws r body (recall rt up key s).0 st resp e) ok)
  ]
