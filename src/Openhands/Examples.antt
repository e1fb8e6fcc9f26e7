-- ===== src/Openhands/Examples.antt =====
-- The theorems of the proxy on concrete inputs.
use mathlib.Core.Path.{subst}
use hmlb.Prelude.{
  ℕ, suc, ◌+◌, ◌≤◌, ◌≡◌, ◌⊎◌, refl, ◌&&◌, leb, List, [], ◌∷◌, ◌++◌, some, none, text, if◌then◌else◌,
  from_option, text_eq,
}
use hmlb.Prelude.All.{All}
use hmlb.Prelude.Equality.{text_beq}
use hmlb.Prelude.Maps.{lookup, insert}
use hmlb.Http.{Request, Response, answered, canonical, get_header, equal_fold}
use hmlb.Openhands.Store.{Disk, absent, null, write_fails, ConvStore, new_store, save_steps}
use hmlb.Openhands.Thread.{Runtime, plain, extract_thread_key}
use hmlb.Openhands.Handler.{Upstream, UpRequest, conv_header, recall, handle}
use hmlb.Openhands.Copying.{IsCanonical, NetLaws}
use hmlb.Openhands.Memory.{Learns, handle-Learns, thread}
use hmlb.Openhands.Run.{latest, serve, watched, IsRetry, handle-latest}
use hmlb.Openhands.Persist.{
  reopened, IsSynced, new_store-IsSynced, save_steps-reopened, serve-reopened,
}
use hmlb.Openhands.Retry.{handle_count}
use hmlb.Openhands.Failure.{IsFailure, IsForgotten, handle_error, handle_null}

abbrev to_lower : ℕ → ℕ
to_lower c = if leb b'A' c && leb c b'Z' then c + 32 else c

-- A body is the text of its one message, and a hash is what it hashes.
abbrev a_runtime : Runtime
a_runtime = record {
  decode = λ body. some (record { role = text "User"; content = plain body } ∷ []);
  fold = to_lower;
  digest = λ t. text "#" ++ t;
}

abbrev an_answer : Response
an_answer = record {
  status = 200;
  headers = (canonical conv_header, text "c1" ∷ []) ∷ [];
  body = text "hello";
}

-- An upstream that counts the requests and answers all of them alike.
abbrev an_upstream : Upstream ℕ
an_upstream = record {
  address = record { url = text "http://up"; host = text "up" };
  refuse = λ method target. none;
  send = λ q st. (answered an_answer, suc st);
}

abbrev a_request : Request
a_request = record {
  method = text "POST";
  path = text "/v1/chat/completions";
  raw_query = [];
  headers = [];
  body = some (text "hi");
}

abbrev an_unread : Request
an_unread = record {
  method = text "POST";
  path = text "/v1/chat/completions";
  raw_query = [];
  headers = [];
  body = none;
}

abbrev a_disk : Disk
a_disk = record { file = absent; tmp = absent }

abbrev a_store : ConvStore
a_store = record { entries = some []; path = text "f"; disk = a_disk; faults = [] }

a_net : NetLaws a_runtime an_upstream
unfolding canonical equal_fold text_beq
a_net = record {
  folds = refl;
  names = λ q st r e.
      let same : an_answer ≡ r = cc e in
      subst (λ (x : Response). IsCanonical x.headers) same (refl, tt);
}

handle-Learns_example :
    Learns a_runtime an_upstream
      (thread a_runtime an_upstream a_request)
      a_store
      (handle a_runtime an_upstream [] a_store a_request 0)
handle-Learns_example = handle-Learns a_runtime an_upstream a_net [] a_store a_request 0 ([], refl)

handle-latest_example :
    let ran = serve a_runtime an_upstream [] (a_request ∷ []) [] a_store 0 in
    (q : UpRequest) × (again : List UpRequest) × ((handle a_runtime
        (watched a_runtime an_upstream)
        []
        ran.1
        a_request
        ([], ran.2)).2.0
      ≡ q ∷ again)
    × (get_header conv_header q.headers
        ≡ from_option [] (latest ran.0 (extract_thread_key a_runtime (text "hi"))))
    × (q.method ≡ text "POST")
    × (q.body ≡ text "hi")
    × IsRetry a_runtime an_upstream again
handle-latest_example =
    handle-latest a_runtime an_upstream a_net [] (a_request ∷ []) a_store 0 a_request (text "hi")
      refl refl refl

save_steps-reopened_example :
    All
      (λ e.
        (reopened (text "f") e ≡ reopened (text "f") a_disk) ⊎ (reopened (text "f") e ≡ some []))
      (save_steps write_fails [] a_disk)
save_steps-reopened_example = save_steps-reopened write_fails [] (text "f") a_disk refl

serve-reopened_example :
    IsSynced
      (serve a_runtime an_upstream [] (a_request ∷ []) [] (new_store (text "f") a_disk []) 0).1
serve-reopened_example =
    serve-reopened a_runtime an_upstream [] (a_request ∷ []) [] (new_store (text "f") a_disk []) 0
      (new_store-IsSynced (text "f") a_disk refl)

handle_count_example :
    (handle a_runtime an_upstream [] a_store a_request 0).2
    ≤ 0
      + (if (recall a_runtime an_upstream (thread a_runtime an_upstream a_request) a_store).1
          then 2
          else 1)
handle_count_example =
    handle_count a_runtime an_upstream (λ (n : ℕ). n) (λ q st. refl) [] a_store a_request 0

handle_error_example :
    IsFailure a_runtime an_upstream
      (text "reset")
      a_store
      an_unread
      0
      400
      (text "read request body: reset")
      (handle a_runtime an_upstream (text "reset") a_store an_unread 0)
unfolding handle
handle_error_example =
    handle_error a_runtime an_upstream (text "reset") a_store an_unread 0 400
      (text "read request body: reset") refl

handle_null_example :
    IsForgotten a_runtime an_upstream
      (new_store (text "f") (record { file = null; tmp = absent }) [])
      (handle a_runtime an_upstream []
        (new_store (text "f") (record { file = null; tmp = absent }) [])
        a_request
        0)
unfolding extract_thread_key equal_fold text_beq
handle_null_example =
    handle_null a_runtime an_upstream a_net [] (text "f") absent [] a_request 0 refl refl

-- The id of the first answer is stored under the thread's key.
learnt_test :
    (handle a_runtime an_upstream [] a_store a_request 0).0.entries
    ≡ some ((text "#hi", text "c1") ∷ [])
unfolding handle extract_thread_key equal_fold text_beq lookup get_header canonical insert
learnt_test = refl
