-- ===== src/Openhands/Run.antt =====
-- A chat thread keeps its conversation over a whole run of the proxy.
use hmlb.Prelude.{
  ℕ, Bool, ◌≡◌, refl, sym, ap, ◌∙◌, List, [], ◌∷◌, ◌++◌, ◌&&◌, leb, some, none, Text, text_eq, inl,
  inr, Option-cases, Bool-cases, from_option,
}
use hmlb.Prelude.Equality.{text_beq}
use hmlb.Prelude.Maps.{lookup}
use hmlb.Http.{
  Request, Response, Sent, failed, answered, get_header, get-set_header, get-del_header,
}
use hmlb.Openhands.Store.{ConvStore, get}
use hmlb.Openhands.Thread.{Runtime, extract_thread_key}
use hmlb.Openhands.Handler.{
  Upstream, UpRequest, conv_header, conv_of, closed, inject, target, up_request, do_forward, recall,
  remember, relay, healed, retried, forwarded, handle,
}
use hmlb.Openhands.Copying.{NetLaws}
use hmlb.Openhands.Memory.{Memory, view, learn, IsLoaded, told, thread, handle-Learns}

-- The threads and the ids that the callers were shown, the latest first.
abbrev pub Log : Type 0
Log = List (Text × Text)

-- The id of a thread that was shown last.
abbrev pub latest : Log → Memory
latest [] k = none
latest ((key, id) ∷ log) k = learn key id (latest log) k

module _ {S : Type 0} (rt : Runtime) (up : Upstream S) where
  -- The requests one after another.
  unfoldable pub serve : Text → List Request → Log → ConvStore → S → Log × ConvStore × S
  unfolding handle
  serve read_error [] log s st = (log, s, st)
  serve read_error (r ∷ rs) log s st =
      let h = handle rt up read_error s r st in
      serve read_error rs ((thread rt up r, told h.1) ∷ log) h.0 h.2

  -- With the laws of net/http, after any requests to a proxy that has started with no mapping, the
  -- store remembers for every thread exactly the id that was shown last.
  pub serve-latest :
      NetLaws rt up
      → (read_error : Text) (rs : List Request) (log : Log) (s : ConvStore) (st : S) → IsLoaded s
      → view s ≡ latest log
      → IsLoaded (serve read_error rs log s st).1
        × (view (serve read_error rs log s st).1 ≡ latest (serve read_error rs log s st).0)
  unfolding serve
  serve-latest laws read_error [] log s st ok same = (ok, same)
  serve-latest laws read_error (r ∷ rs) log s st ok same =
      let h = handle rt up read_error s r st in
      let key = thread rt up r in
      let (ok', _, sees) = handle-Learns rt up laws read_error s r st ok in
      serve-latest laws read_error rs ((key, told h.1) ∷ log) h.0 h.2 ok'
        (sees ∙ ap (λ f. learn key (told h.1) f) same)

  injected :
      (id : Text) (r : Request) (body : Text)
      → get_header conv_header (up_request rt up r body id).headers ≡ id
  unfolding up_request inject
  injected [] r body = get-del_header conv_header r.headers
  injected (c ∷ id) r body = get-set_header conv_header (c ∷ id) r.headers

  recalled :
      (c : ℕ) (key : Text) (s : ConvStore)
      → (recall rt up (c ∷ key) s).0 ≡ from_option [] (view s (c ∷ key))
  unfolding recall get
  recalled c key s = elim (Option-cases (view s (c ∷ key))) [
    | inl missing ↦ rw (missing, get) refl
    | inr (id, found) ↦ rw (found, get) refl
  ]

  latest_unkeyed : (log : Log) → latest log [] ≡ none
  unfolding text_beq
  latest_unkeyed [] = refl
  latest_unkeyed (([], id) ∷ log) = latest_unkeyed log
  latest_unkeyed ((c ∷ key, []) ∷ log) = latest_unkeyed log
  latest_unkeyed ((c ∷ key, d ∷ id) ∷ log) = latest_unkeyed log

  recalled_latest :
      (key : Text) (log : Log) (s : ConvStore)
      → view s ≡ latest log
      → (recall rt up key s).0 ≡ from_option [] (latest log key)
  unfolding recall
  recalled_latest [] log s same = ap (λ o. from_option [] o) (sym (latest_unkeyed log))
  recalled_latest (c ∷ key) log s same =
      recalled c key s ∙ ap (λ (f : Memory). from_option [] (f (c ∷ key))) same

  -- The same upstream, which also keeps the requests that it gets.
  abbrev pub watched : Upstream (List UpRequest × S)
  watched = record {
    address = up.address;
    refuse = up.refuse;
    send = λ q seen. let (sent, st) = up.send q seen.1 in (sent, (seen.0 ++ q ∷ [], st));
  }

  -- Where nothing is sent again the upstream's state is left.
  relay_seen :
      (key id : Text) (r : Response) (s : ConvStore) (seen : List UpRequest × S)
      → (relay rt watched key id r s seen).2 ≡ seen
  unfolding relay
  relay_seen key id r s seen = elim (Option-cases (remember rt watched key id s)) [
    | inl panics ↦ rw (panics, relay) refl
    | inr (t, kept) ↦ rw (kept, relay) refl
  ]

  healed_seen :
      (key : Text) (first : Response) (again : Sent) (s : ConvStore) (seen : List UpRequest × S)
      → (healed rt watched key first again s seen).2 ≡ seen
  unfolding healed
  healed_seen key first (failed e) s seen = relay_seen key (conv_of first) (closed first) s seen
  healed_seen key first (answered r) s seen = relay_seen key (conv_of r) r s seen

  do_forward_seen :
      (r : Request) (body id : Text) (seen : List UpRequest × S)
      → up.refuse r.method (target rt up r) ≡ none
      → (do_forward rt watched r body id seen).1.0 ≡ seen.0 ++ up_request rt up r body id ∷ []
  unfolding do_forward up_request
  do_forward_seen r body id seen fine = rw (fine, do_forward) refl

  -- Behind the first request there may be one more, without an id.
  abbrev pub IsRetry : List UpRequest → Type 0
  IsRetry [] = Unit
  IsRetry (q ∷ qs) = (get_header conv_header q.headers ≡ []) × (qs ≡ [])

  forwarded_seen :
      (key : Text) (had : Bool) (r : Request) (body : Text) (s : ConvStore) (sent : Sent)
      (q : UpRequest) (st : S)
      → up.refuse r.method (target rt up r) ≡ none
      → (again : List UpRequest) × ((forwarded rt watched key had r body s sent (q ∷ [], st)).2.0
          ≡ q ∷ again)
        × IsRetry again
  unfolding forwarded retried
  forwarded_seen key had r body s (failed e) q st fine = ([], refl, tt)
  forwarded_seen key had r body s (answered resp) q st fine =
      elim (Bool-cases (had && leb 400 resp.status)) [
        | inr good ↦ (
          [],
          rw (good, forwarded) (ap (λ v. v.0) (relay_seen key (conv_of resp) resp s (q ∷ [], st))),
          tt,
        )
        | inl bad ↦
            let next = do_forward rt watched r body [] (q ∷ [], st) in
            (
              up_request rt up r body [] ∷ [],
              rw (bad, forwarded)
                  (ap (λ v. v.0) (healed_seen key resp next.0 s next.1)
                    ∙ do_forward_seen r body [] (q ∷ [], st) fine),
              (injected [] r body, refl),
            )
      ]

  handle_first :
      (read_error : Text) (s : ConvStore) (st : S) (r : Request) (body : Text)
      → r.body ≡ some body
      → up.refuse r.method (target rt up r) ≡ none
      → let key = extract_thread_key rt body in
        let found = recall rt up key s in
        let q = up_request rt up r body found.0 in
        handle rt watched read_error s r ([], st)
        ≡ forwarded rt watched key found.1 r body s (up.send q st).0 (q ∷ [], (up.send q st).1)
  unfolding handle do_forward up_request recall
  handle_first read_error s st r body read fine = rw (read, handle) (rw (fine, do_forward) refl)

  -- With the laws of net/http, whatever requests a proxy that has started with no mapping has
  -- served, the next one whose body can be read, if a request upstream can be made of it, goes
  -- upstream first with its method and body and the id that was last shown in its thread, and with
  -- none if there is no such id, whatever id the caller claims; a second request upstream, if there
  -- is one, has no id.
  pub handle-latest :
      NetLaws rt up
      → (read_error : Text) (rs : List Request) (s : ConvStore) (st : S) (r : Request) (body : Text)
      → s.entries ≡ some []
      → r.body ≡ some body
      → up.refuse r.method (target rt up r) ≡ none
      → let ran = serve read_error rs [] s st in
        (q : UpRequest) × (again : List UpRequest) × ((handle rt watched read_error ran.1 r
            ([], ran.2)).2.0
          ≡ q ∷ again)
        × (get_header conv_header q.headers
            ≡ from_option [] (latest ran.0 (extract_thread_key rt body)))
        × (q.method ≡ r.method)
        × (q.body ≡ body)
        × IsRetry again
  unfolding lookup up_request
  handle-latest laws read_error rs s st r body fresh read fine =
      let key = extract_thread_key rt body in
      let ran = serve read_error rs [] s st in
      let begun : view s ≡ latest [] = ap (λ o k. lookup k (from_option [] o)) fresh in
      let (_, same) = serve-latest laws read_error rs [] s st ([], fresh) begun in
      let found = recall rt up key ran.1 in
      let q = up_request rt up r body found.0 in
      let (again, all, once) =
        forwarded_seen key found.1 r body ran.1 (up.send q ran.2).0 q (up.send q ran.2).1 fine in
      (
        q,
        again,
        ap (λ v. v.2.0) (handle_first read_error ran.1 ran.2 r body read fine) ∙ all,
        injected found.0 r body ∙ recalled_latest key ran.0 ran.1 same,
        refl,
        refl,
        once,
      )
