-- ===== src/Openhands/Retry.antt =====
-- How often a request goes upstream.
use hmlb.Prelude.{
  ℕ, suc, [], ◌+◌, ◌≤◌, ◌≡◌, refl, Bool, true, false, Text, leb, inl, inr, Bool-cases, Option-cases,
  arith, if◌then◌else◌,
}
use hmlb.Http.{Request, Response, Sent, failed, answered}
use hmlb.Openhands.Store.{ConvStore}
use hmlb.Openhands.Thread.{Runtime, extract_thread_key}
use hmlb.Openhands.Handler.{
  UpRequest, Upstream, conv_of, closed, target, up_request, do_forward, recall, remember, relay,
  healed, retried, forwarded, handle,
}
use hmlb.Openhands.Memory.{thread}

module _ {S : Type 0} (rt : Runtime) (up : Upstream S) (count : S → ℕ)
    (sends : (q : UpRequest) (st : S) → count (up.send q st).1 ≡ suc (count st)) where
  do_forward_count :
      (r : Request) (body id : Text) (st : S)
      → count (do_forward rt up r body id st).1 ≤ count st + 1
  unfolding do_forward
  do_forward_count r body id st = elim (Option-cases (up.refuse r.method (target rt up r))) [
    | inl fine ↦ rw (fine, do_forward) (omega (arith, sends (up_request rt up r body id) st))
    | inr (e, bad) ↦ rw (bad, do_forward) (omega arith)
  ]

  relay_count :
      (key id : Text) (r : Response) (s : ConvStore) (st : S)
      → count (relay rt up key id r s st).2 ≡ count st
  unfolding relay
  relay_count key id r s st = elim (Option-cases (remember rt up key id s)) [
    | inl panics ↦ rw (panics, relay) refl
    | inr (t, kept) ↦ rw (kept, relay) refl
  ]

  healed_count :
      (key : Text) (first : Response) (again : Sent) (s : ConvStore) (st : S)
      → count (healed rt up key first again s st).2 ≡ count st
  unfolding healed
  healed_count key first (failed e) s st = relay_count key (conv_of first) (closed first) s st
  healed_count key first (answered r) s st = relay_count key (conv_of r) r s st

  forwarded_count :
      (key : Text) (had : Bool) (r : Request) (body : Text) (s : ConvStore) (sent : Sent) (st : S)
      → count (forwarded rt up key had r body s sent st).2 ≤ count st + (if had then 1 else 0)
  unfolding forwarded retried
  forwarded_count key had r body s (failed e) st = omega arith
  forwarded_count key false r body s (answered resp) st =
      omega (arith, relay_count key (conv_of resp) resp s st)
  forwarded_count key true r body s (answered resp) st = elim (Bool-cases (leb 400 resp.status)) [
    | inr fine ↦ rw (fine, forwarded) (omega (arith, relay_count key (conv_of resp) resp s st))
    | inl stale ↦
        let again = do_forward rt up r body [] st in
        rw (stale, forwarded)
          (omega (arith, healed_count key resp again.0 s again.1, do_forward_count r body [] st))
  ]

  -- Where a count of the requests upstream goes up by one with each, a request of a caller goes
  -- upstream at most twice if its thread has a mapping, and at most once if it has none.
  pub handle_count :
      (read_error : Text) (s : ConvStore) (r : Request) (st : S)
      → count (handle rt up read_error s r st).2
        ≤ count st + (if (recall rt up (thread rt up r) s).1 then 2 else 1)
  unfolding handle
  handle_count read_error s r st = elim (Option-cases r.body) [
    | inl unread ↦ rw (unread, handle) (ground arith)
    | inr (body, read) ↦
        let key = extract_thread_key rt body in
        let had = (recall rt up key s).1 in
        let sent = do_forward rt up r body (recall rt up key s).0 st in
        rw (read, handle)
          (ground (
            arith,
            do_forward_count r body (recall rt up key s).0 st,
            forwarded_count key had r body s sent.0 sent.1,
          ))
  ]
