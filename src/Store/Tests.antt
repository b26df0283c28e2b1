-- ===== src/Store/Tests.antt =====
-- The store's theorems at a database of lists and a run of two results, after tests/test_ingest.py.
use tunnel_ops.Base.{
  map, ℕ, zero, suc, ◌==◌, Str, str_eq, codes, Bool, true, false, List, [], ◌∷◌, Option, none, some,
  ok, if◌then◌else◌, ◌≡◌, refl, ◌⊎◌, ◌↔◌, ◌≤◌, ◌≢◌, length, count_where,
}
use tunnel_ops.Samples.Batch.{run, empty}
use tunnel_ops.Samples.{nanos, target_of}
use tunnel_ops.Target.{Result, new_result}
use tunnel_ops.Push.{PushPayload, failed_phase, carried, pushable, build_payload}
use tunnel_ops.Store.Acceptance.{PushableFit, push-created_iff}
use tunnel_ops.Document.{member, payload_document}
use tunnel_ops.Store.Schema.{read_run}
use tunnel_ops.Store.Schema.Contract.{received, build_payload-read_run}
use tunnel_ops.Push.Delivery.{Request, Round, no_response, response, request_of, push_results}
use tunnel_ops.Store.{
  committed, rolled_back, Body, json, malformed, Reply, is_ascii, compare_digest, token_ok,
  valid_run, run_accepted, ingest_run, post_run,
}
use tunnel_ops.Store.Ledger.{Posted, posts, ledger_posts, StandsFor, posts-ledger_posts}
use tunnel_ops.Store.Tables.{Tables, tables, tables-Documented}
use tunnel_ops.Store.Laws.{Stored, ingest_run-Stored}
use tunnel_ops.Store.Delivered.{Course, Delivered, missed, unheard, heard, push_results-Delivered}
use tunnel_ops.Store.Replays.{serve, serves, arriving, push_results-once}
use tunnel_ops.Store.Statuses.{Answered, post_run-created_iff}

ingest_run-Stored_example :
    (s' : Tables ℕ) × (ingest_run tables run empty ≡ some (run_accepted (codes "a") 2 false, s'))
    × Stored tables tables-Documented run empty s'
ingest_run-Stored_example = ingest_run-Stored tables tables-Documented run empty refl

post_run-created_iff_example :
    Answered tables tables-Documented committed
      (codes "token")
      (some (codes "token"))
      (json (some run))
      empty
      (post_run tables committed (codes "token") (some (codes "token")) (json (some run)) empty)
post_run-created_iff_example =
    post_run-created_iff tables tables-Documented committed (codes "token") (some (codes "token"))
      (json (some run)) empty

-- The responses of the first two attempts are lost, although the second one arrives.
abbrev lossy : ℕ → Round
lossy i = record {
  cancelled = none;
  answer = if i == 2 then response 201 (codes "201 Created") [] else no_response (codes "timeout");
}

abbrev sent : List Request
sent = (push_results (λ s. s) (codes "url") (codes "token") (ok (codes "{}")) lossy).0

abbrev credentials_of : List (Str × Str) → Option Str
credentials_of headers = some (codes "token")

abbrev decode : Str → Body ℕ
decode body = json (some run)

abbrev arrives : ℕ → Bool
arrives i = if i == 0 then false else true

push_results-once_example :
    (serves tables tables-Documented
        (codes "token")
        credentials_of
        decode
        (arriving tables tables-Documented (codes "token") credentials_of decode arrives sent)
        empty
      ≡ empty)
    ⊎ (serves tables tables-Documented
          (codes "token")
          credentials_of
          decode
          (arriving tables tables-Documented (codes "token") credentials_of decode arrives sent)
          empty
        ≡ serve tables tables-Documented
            (codes "token")
            credentials_of
            decode
            (request_of (codes "url") (codes "token") (codes "{}"))
            empty)
push_results-once_example =
    push_results-once tables tables-Documented (codes "token") credentials_of decode (λ s. s)
      (codes "url") (codes "token") (codes "{}") lossy arrives empty

abbrev sent_run : Request
sent_run = request_of (codes "url") (codes "token") (codes "{}")

abbrev served : Tables ℕ
served =
    (post_run tables committed (codes "token") (some (codes "token")) (json (some run)) empty).1

-- The database before each of the requests, and behind the last one.
abbrev states : ℕ → Tables ℕ
states zero = empty
states (suc zero) = empty
states (suc (suc i)) = served

lossy_course :
    Course tables tables-Documented (codes "token") credentials_of decode lossy states 0 sent
unfolding post_run str_eq push_results
lossy_course = (missed (λ h. h), (unheard (λ h. h), (heard (codes "201 Created") [], tt)))

push_results-Delivered_example :
    Delivered tables tables-Documented
      (codes "token")
      credentials_of
      decode
      sent_run
      empty
      (states (length sent))
unfolding push_results
push_results-Delivered_example =
    push_results-Delivered tables tables-Documented (codes "token") credentials_of decode (λ s. s)
      (codes "url") (codes "token") (codes "{}") lossy states lossy_course refl

-- A healthy result over TLS, pushed without a provider.
abbrev probed : Result ℕ
probed = record (new_result (target_of "edge")) {
  ok = true;
  tcp_ok = some true;
  tls_ok = some true;
  tls_time = some 191;
}

build_payload-read_run_example :
    (p : PushPayload ℕ) × (build_payload nanos (codes "a") (codes "nodecheck@host") 9 (probed ∷ [])
      ≡ some p)
    × (read_run (λ s. s) some (codes "new") (payload_document p)
        ≡ some (record {
          run_id = codes "a";
          source = codes "nodecheck@host";
          started_at = 0;
          results = map (received (λ s. s)) p.results;
        }))
build_payload-read_run_example =
    build_payload-read_run nanos (λ s. s) some (codes "new") (codes "a") (codes "a")
      (codes "nodecheck@host") 9 (probed ∷ []) refl

abbrev payload : PushPayload ℕ
payload = record {
  run_id = codes "a";
  source = codes "nodecheck@host";
  started_at = 9;
  results = carried nanos probed true true ∷ [];
}

push-created_iff_example :
    ((post_run tables committed
        (codes "token")
        (some (codes "token"))
        (json (read_run (λ s. s) some (codes "new") (payload_document payload)))
        empty).0.status
      ≡ 201)
    ↔ ((committed ≡ committed)
        × (some (codes "token") ≡ some (codes "token"))
        × (is_ascii (codes "token") ≡ true)
        × (length (codes "nodecheck@host") ≤ 128)
        × (count_where (pushable nanos) (probed ∷ []) ≢ 0)
        × PushableFit nanos (λ s. s) (probed ∷ []))
push-created_iff_example =
    push-created_iff nanos tables tables-Documented (λ s. s) some committed (codes "new")
      (codes "token") (some (codes "token")) (codes "a") (codes "a") (codes "nodecheck@host") 9
      (probed ∷ []) payload empty refl (unfold build_payload pushable in refl)

accepted_payload :
    (post_run tables committed
      (codes "token")
      (some (codes "token"))
      (json (read_run (λ s. s) some (codes "new") (payload_document payload)))
      empty).0.status
    ≡ 201
unfolding post_run read_run payload_document str_eq member new_result failed_phase
accepted_payload = refl

-- A request without a token, a run that is rolled back, the run again, a body that is no run, the
-- same run once more, and a body that is no JSON.
abbrev posted : List (Posted ℕ)
posted =
    (committed, none, json (some run))
    ∷ (rolled_back, some (codes "token"), json (some run))
    ∷ (committed, some (codes "token"), json (some run))
    ∷ (committed, some (codes "token"), json none)
    ∷ (committed, some (codes "token"), json (some run))
    ∷ (committed, none, malformed)
    ∷ []

posts-ledger_posts_example :
    ((posts tables tables-Documented (codes "token") posted empty).0
      ≡ (ledger_posts (codes "token") posted (λ k. none)).0)
    × StandsFor tables tables-Documented
        (posts tables tables-Documented (codes "token") posted empty).1
        (ledger_posts (codes "token") posted (λ k. none)).1
posts-ledger_posts_example =
    posts-ledger_posts tables tables-Documented (codes "token") posted empty (λ k. none) (λ k. refl)

posted_statuses :
    map (λ reply. Reply.status reply) (ledger_posts (codes "token") posted (λ k. none)).0
    ≡ 401 ∷ 500 ∷ 201 ∷ 422 ∷ 201 ∷ 422 ∷ []
unfolding token_ok compare_digest valid_run str_eq
posted_statuses = refl
