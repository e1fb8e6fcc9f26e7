-- ===== src/Openhands/Failure.antt =====
-- What the proxy does when something fails.
use hmlb.Prelude.{
  ℕ, ◌≡◌, ◌≢◌, refl, sym, ap, ◌∙◌, Bool, false, ◌&&◌, List, [], ◌∷◌, ◌++◌, some, none, Text, text,
  text_eq, ◌==◌, leb, ◌⊎◌, inl, inr, Bool-cases, Option-cases, if◌then◌else◌, from_option,
}
use hmlb.Prelude.Equality.{text_beq}
use hmlb.Prelude.Maps.{lookup}
use hmlb.Http.{Request, Response, Sent, failed, answered}
use hmlb.Openhands.Store.{
  Contents, null, SaveFault, ConvStore, load, new_store, is_empty, set_id, write_entry,
}
use hmlb.Openhands.Thread.{Runtime, extract_thread_key}
use hmlb.Openhands.Handler.{
  Upstream, Reply, http_error, conv_of, closed, do_forward, recall, remember, relay, healed,
  retried, forwarded, handle,
}
use hmlb.Openhands.Copying.{IsCanonical, NetLaws, surfaced}
use hmlb.Openhands.Memory.{told, thread, do_forward-names}

-- A write to a nil map panics.
set_nil :
    (c d : ℕ) (key id : Text) (s : ConvStore)
    → s.entries ≡ none
    → set_id (c ∷ key) (d ∷ id) s ≡ none
unfolding set_id write_entry lookup text_beq
set_nil c d key id s nil =
    ap
      (λ o.
        if from_option [] (lookup (c ∷ key) (from_option [] o)) == d ∷ id
        then some s
        else write_entry (c ∷ key) (d ∷ id) o s)
      nil

nil_store :
    (path : Text) (tmp : Contents) (faults : List SaveFault)
    → is_empty path ≡ false
    → (new_store path (record { file = null; tmp = tmp }) faults).entries ≡ none
unfolding new_store load
nil_store [] tmp faults named = cc
nil_store (c ∷ path) tmp faults named = refl

module _ {S : Type 0} (rt : Runtime) (up : Upstream S) where
  -- Nothing is kept; and the body could not be read and nothing was sent, or what was sent upstream
  -- failed, and the answer says why.
  abbrev pub IsFailure : Text → ConvStore → Request → S → ℕ → Text → ConvStore × Reply × S → Type 0
  IsFailure read_error s r st code msg h =
      (h.0 ≡ s)
      × (((code ≡ 400)
            × (msg ≡ text "read request body: " ++ read_error)
            × (r.body ≡ none)
            × (h.2 ≡ st))
          ⊎ ((body : Text) × (error : Text) × (code ≡ 502)
              × (msg ≡ text "upstream: " ++ error)
              × (r.body ≡ some body)
              × ((do_forward rt up r body (recall rt up (extract_thread_key rt body) s).0 st).0
                  ≡ failed error)
              × (h.2
                  ≡ (do_forward rt up r body (recall rt up (extract_thread_key rt body) s).0
                      st).1)))

  relay-ne-error :
      (key id : Text) (r : Response) (s : ConvStore) (st : S) (code : ℕ) (msg : Text)
      → (relay rt up key id r s st).1 ≢ http_error code msg
  unfolding relay
  relay-ne-error key id r s st code msg = elim (Option-cases (remember rt up key id s)) [
    | inl panics ↦ rw (panics, relay) (λ e. cc)
    | inr (t, kept) ↦ rw (kept, relay) (λ e. cc)
  ]

  healed-ne-error :
      (key : Text) (first : Response) (again : Sent) (s : ConvStore) (st : S) (code : ℕ)
      (msg : Text)
      → (healed rt up key first again s st).1 ≢ http_error code msg
  unfolding healed
  healed-ne-error key first (failed e) s st code msg =
      relay-ne-error key (conv_of first) (closed first) s st code msg
  healed-ne-error key first (answered r) s st code msg =
      relay-ne-error key (conv_of r) r s st code msg

  forwarded_error :
      (key : Text) (had : Bool) (r : Request) (body : Text) (s : ConvStore) (sent : Sent) (st : S)
      (code : ℕ) (msg : Text)
      → (forwarded rt up key had r body s sent st).1 ≡ http_error code msg
      → ((forwarded rt up key had r body s sent st).0 ≡ s)
        × (code ≡ 502)
        × ((forwarded rt up key had r body s sent st).2 ≡ st)
        × ((error : Text) × (sent ≡ failed error) × (msg ≡ text "upstream: " ++ error))
  unfolding forwarded retried
  forwarded_error key had r body s (failed e) st code msg h = (refl, cc h, refl, (e, refl, cc h))
  forwarded_error key had r body s (answered resp) st code msg h =
      elim (Bool-cases (had && leb 400 resp.status)) [
        | inr fine ↦
            absurd
              (relay-ne-error key (conv_of resp) resp s st code msg (rw (fine, forwarded) at h))
        | inl stale ↦
            let again = do_forward rt up r body [] st in
            absurd
              (healed-ne-error key resp again.0 s again.1 code msg (rw (stale, forwarded) at h))
      ]

  -- An error of the proxy itself keeps the store, and is one of two: 400 with the reason for a body
  -- that cannot be read, where nothing is sent, and 502 with the reason where the request that is
  -- sent upstream, with the id that the store gives for its thread, or the making of it, fails.
  pub handle_error :
      (read_error : Text) (s : ConvStore) (r : Request) (st : S) (code : ℕ) (msg : Text)
      → (handle rt up read_error s r st).1 ≡ http_error code msg
      → IsFailure read_error s r st code msg (handle rt up read_error s r st)
  unfolding handle
  handle_error read_error s r st code msg h = elim (Option-cases r.body) [
    | inl unread ↦
        let msg' = text "read request body: " ++ read_error in
        let runs : handle rt up read_error s r st ≡ (s, http_error 400 msg', st) =
          rw (unread, handle) refl in
        let said : http_error 400 msg' ≡ http_error code msg = sym (ap (λ v. v.1) runs) ∙ h in
        (ap (λ v. v.0) runs, inl (cc said, cc said, unread, ap (λ v. v.2) runs))
    | inr (body, read) ↦
        let key = extract_thread_key rt body in
        let sent = do_forward rt up r body (recall rt up key s).0 st in
        let (kept, gateway, left, (error, down, said)) =
          forwarded_error key (recall rt up key s).1 r body s sent.0 sent.1 code msg
            (rw (read, handle) at h) in
        (
          rw (read, handle) kept,
          inr (body, error, gateway, said, read, down, rw (read, handle) left),
        )
  ]

  -- The store as it was, and no id for the caller.
  abbrev pub IsForgotten : ConvStore → ConvStore × Reply × S → Type 0
  IsForgotten s h = (h.0 ≡ s) × (told h.1 ≡ [])

  relay_nil :
      NetLaws rt up
      → (c : ℕ) (key id : Text) (r : Response) (s : ConvStore) (st : S) → IsCanonical r.headers
      → s.entries ≡ none
      → IsForgotten s (relay rt up (c ∷ key) id r s st)
  unfolding relay remember
  relay_nil laws c key [] r s st names nil = (refl, surfaced rt.fold laws.folds [] r.headers names)
  relay_nil laws c key (d ∷ id) r s st names nil =
      let panics : remember rt up (c ∷ key) (d ∷ id) s ≡ none = set_nil c d key id s nil in
      rw (panics, relay) (refl, refl)

  healed_nil :
      NetLaws rt up
      → (c : ℕ) (key : Text) (first : Response) (again : Sent) (s : ConvStore) (st : S)
      → IsCanonical first.headers
      → ((r : Response) → again ≡ answered r → IsCanonical r.headers)
      → s.entries ≡ none
      → IsForgotten s (healed rt up (c ∷ key) first again s st)
  unfolding healed
  healed_nil laws c key first (failed e) s st names names' nil =
      relay_nil laws c key (conv_of first) (closed first) s st names nil
  healed_nil laws c key first (answered r) s st names names' nil =
      relay_nil laws c key (conv_of r) r s st (names' r refl) nil

  forwarded_nil :
      NetLaws rt up
      → (c : ℕ) (key : Text) (had : Bool) (r : Request) (body : Text) (s : ConvStore) (sent : Sent)
        (st : S)
      → ((resp : Response) → sent ≡ answered resp → IsCanonical resp.headers)
      → s.entries ≡ none
      → IsForgotten s (forwarded rt up (c ∷ key) had r body s sent st)
  unfolding forwarded retried
  forwarded_nil laws c key had r body s (failed e) st names nil = (refl, refl)
  forwarded_nil laws c key had r body s (answered resp) st names nil =
      elim (Bool-cases (had && leb 400 resp.status)) [
        | inr fine ↦
            rw (fine, forwarded)
              (relay_nil laws c key (conv_of resp) resp s st (names resp refl) nil)
        | inl stale ↦
            let again = do_forward rt up r body [] st in
            rw (stale, forwarded)
              (healed_nil laws c key resp again.0 s again.1 (names resp refl)
                (λ q e. do_forward-names rt up laws r body [] st q e) nil)
      ]

  keyed_nil :
      NetLaws rt up
      → (key : Text) (had : Bool) (r : Request) (body : Text) (s : ConvStore) (sent : Sent) (st : S)
      → is_empty key ≡ false
      → ((resp : Response) → sent ≡ answered resp → IsCanonical resp.headers)
      → s.entries ≡ none
      → IsForgotten s (forwarded rt up key had r body s sent st)
  keyed_nil laws [] had r body s sent st threaded names nil = cc
  keyed_nil laws (c ∷ key) had r body s sent st threaded names nil =
      forwarded_nil laws c key had r body s sent st names nil

  handle_nil :
      NetLaws rt up
      → (read_error : Text) (s : ConvStore) (r : Request) (st : S) → s.entries ≡ none
      → is_empty (thread rt up r) ≡ false
      → IsForgotten s (handle rt up read_error s r st)
  unfolding handle
  handle_nil laws read_error s r st nil threaded = elim (Option-cases r.body) [
    | inl unread ↦ rw (unread, handle) (refl, refl)
    | inr (body, read) ↦
        let key = extract_thread_key rt body in
        let id = (recall rt up key s).0 in
        let sent = do_forward rt up r body id st in
        let full : is_empty key ≡ false = rw read at threaded in
        rw (read, handle)
          (keyed_nil laws key (recall rt up key s).1 r body s sent.0 sent.1 full
            (λ q e. do_forward-names rt up laws r body id st q e) nil)
  ]

  -- With the laws of net/http, a proxy whose file holds `null` when it starts never remembers
  -- anything: no request of a thread that it serves is shown the id of its conversation, and the
  -- store stays as it is.
  pub handle_null :
      NetLaws rt up
      → (read_error path : Text) (tmp : Contents) (faults : List SaveFault) (r : Request) (st : S)
      → is_empty path ≡ false
      → is_empty (thread rt up r) ≡ false
      → let s = new_store path (record { file = null; tmp = tmp }) faults in
        IsForgotten s (handle rt up read_error s r st)
  handle_null laws read_error path tmp faults r st named threaded =
      let s = new_store path (record { file = null; tmp = tmp }) faults in
      handle_nil laws read_error s r st (nil_store path tmp faults named) threaded
