-- ===== src/Store/Reading/Pushed.antt =====
-- From a probe of cmd/nodecheck (runAll, push.go) to what GET /v1/nodes of probestore shows of it.
use mathlib.Core.Path.{subst}
use tunnel_ops.Base.{
  ℕ, ◌<◌, Str, Bool, true, List, ◌∷◌, ◌++◌, map, All, All-append, All-split, map-append, Option,
  none, some, some-eq, ◌&&◌, ◌≡◌, refl, sym, ap, ◌∙◌, ◌⊎◌, inl,
}
use tunnel_ops.Target.{Floating, Target, Result}
use tunnel_ops.Prober.{Runtime}
use tunnel_ops.Prober.Laws.{built_in}
use tunnel_ops.Prober.Phases.{asks_tls}
use tunnel_ops.RunAll.Probes.{Probed}
use tunnel_ops.Push.{PushResult, PushPayload, build_payload}
use tunnel_ops.Push.Laws.{Carries, Ships, built-Ships}
use tunnel_ops.Command.Fleet.{pushable_lem}
use tunnel_ops.Document.{payload_document}
use tunnel_ops.Store.{committed, Body, json}
use tunnel_ops.Store.Created.{post_run-created}
use tunnel_ops.Store.{ResultIn, RunIn, Database, key_of, Reply, post_run}
use tunnel_ops.Store.Documents.{Documented}
use tunnel_ops.Store.Schema.{microseconds, read_run}
use tunnel_ops.Store.Schema.Contract.{received, built-read_run}
use tunnel_ops.Store.Reading.{NodeStatus, Selects, list_nodes}
use tunnel_ops.Store.Reading.Queries.{In, In-middle, Read}
use tunnel_ops.Store.Reading.Probes.{filed_under, Older, Probed-phases, Ships-split, Older-received}
use tunnel_ops.Store.Reading.Latest.{status_of, Newest, list_nodes-ingest_run}

module _ (fl : Floating) (db : Database (Floating.Float64 fl)) (doc : Documented db)
    (q : Selects db) (read : Read db doc q) (characters : Str → Str) where
  open fl use {Float64}
  open db use {State}
  open doc use {node_id}
  open read use {rows_of}

  -- What was stored before for the node of a result is older.
  abbrev pub OlderRows : Result Float64 → State → State → Type 0
  OlderRows r s s' =
      (i : ℕ)
      → node_id (filed_under fl characters r) s' ≡ some i
      → All (λ p. p.node_id ≡ i → p.ts < microseconds r.timestamp) (rows_of s)

  -- The store shows the node of a result, up or not, as of the microsecond of the result.
  abbrev pub Shows : Result Float64 → Bool → State → Type 0
  Shows r up s =
      (st : NodeStatus Float64) × (status_of (filed_under fl characters r) (list_nodes db q s)
        ≡ some st)
      × (st.up ≡ up)
      × (st.ts ≡ microseconds r.timestamp)

module _ (rt : Runtime) (db : Database (Floating.Float64 (Runtime.floating rt)))
    (doc : Documented db) (q : Selects db) (read : Read db doc q) (characters : Str → Str)
    (parse_uuid : Str → Option Str) (default_id api_token : Str) (credentials : Option Str) where
  open rt use {floating}
  open floating use {Float64}
  open db use {State, find_run}
  open doc use {node_id}

  -- The reply to a payload, and the database behind it.
  abbrev pub stored_push : PushPayload Float64 → State → Reply × State
  stored_push p s =
      post_run db committed api_token credentials
        (json (read_run characters parse_uuid default_id (payload_document p))) s

  -- The run that a payload comes to, of which a part of the results is looked at.
  module _ (body : Body Float64) (run : RunIn Float64) (is_run : body ≡ json (some run)) (s : State)
      (r : Result Float64) (pr : PushResult Float64) (before after : List (Result Float64))
      (sent later : List (PushResult Float64))
      (holds : run.results ≡ map (received characters) (sent ++ pr ∷ later))
      (ships₁ : Ships floating before sent) (carries : Carries floating r pr)
      (ships₂ : Ships floating after later) where
    abbrev replied : Reply × State
    replied = post_run db committed api_token credentials body s

    abbrev x : ResultIn Float64
    x = received characters pr

    filed : key_of x.node ≡ filed_under floating characters r
    filed = λ i. (characters (carries.1 i), characters (carries.2 i))

    newest :
        Older floating characters r (before ++ after)
        → OlderRows floating db doc q read characters r s replied.1
        → Newest db doc q read s replied.1 run.results x
    newest older older_rows =
        let (o₁, o₂) = All-split _ before after older in
        (
          subst (All (λ y. key_of y.node ≡ key_of x.node → (y ≡ x) ⊎ (y.ts < x.ts)))
              (sym (map-append (received characters) sent (pr ∷ later)) ∙ sym holds)
              (All-append _ (map (received characters) sent) (x ∷ map (received characters) later)
                (Older-received floating characters r (key_of x.node) x before sent ships₁ filed
                  (ap microseconds carries.4) o₁)
                (
                  (λ e. inl refl),
                  Older-received floating characters r (key_of x.node) x after later ships₂ filed
                      (ap microseconds carries.4) o₂,
                )),
          λ i held.
              subst (λ t. All (λ o. o.node_id ≡ i → o.ts < t) (Read.rows_of read s))
                (sym (ap microseconds carries.4))
                (older_rows i (ap (λ k. node_id k replied.1) (sym filed) ∙ held)),
        )

    shown :
        find_run run.run_id s ≡ none
        → replied.0.status ≡ 201
        → Older floating characters r (before ++ after)
        → OlderRows floating db doc q read characters r s replied.1
        → Shows floating db doc q read characters r (pr.tcp_ok && pr.tls_ok) replied.1
    shown new created older older_rows =
        let (a, done) = post_run-created db api_token credentials body run s is_run created in
        let among : In x run.results =
          subst (In x) (sym (map-append (received characters) sent (pr ∷ later)) ∙ sym holds)
            (In-middle x (map (received characters) sent) (map (received characters) later)) in
        let (st, found, says) =
          list_nodes-ingest_run db doc q read run s replied.1 a x new done among
            (newest older older_rows) in
        (
          st,
          ap (λ k. status_of k (list_nodes db q replied.1)) (sym filed) ∙ found,
          says.3,
          says.2 ∙ ap microseconds carries.4,
        )

  -- The health that a TLS probe finds is the state that the store shows: once the batch with the
  -- probe's result is answered by 201, under an identifier that was not there, GET /v1/nodes shows
  -- the node of the target up exactly where the result is healthy, as of the time of the probe
  -- without what it has beyond microseconds. This is where the other pushed results of that node are
  -- older, counted in microseconds, in the batch and in what was stored before.
  pub probe-list_nodes :
      (timeout : ℕ) (t : Target) (r : Result Float64) (before after : List (Result Float64))
      (run_id id source : Str) (started_at : ℕ) (p : PushPayload Float64) (s : State)
      → Probed rt built_in timeout t r
      → asks_tls rt t ≡ true
      → build_payload floating run_id source started_at (before ++ r ∷ after) ≡ some p
      → parse_uuid run_id ≡ some id
      → find_run id s ≡ none
      → (stored_push p s).0.status ≡ 201
      → Older floating characters r (before ++ after)
      → OlderRows floating db doc q read characters r s (stored_push p s).1
      → Shows floating db doc q read characters r r.ok (stored_push p s).1
  probe-list_nodes timeout t r before after run_id id source started_at p s probed asked built
        parsed new created older older_rows =
      let rs = before ++ r ∷ after in
      let (a, b, tcp, tls_ok, up) = Probed-phases rt timeout t r probed asked in
      let ships = built-Ships floating run_id source started_at rs p built in
      let run : RunIn Float64 = record {
        run_id = id;
        source = characters source;
        started_at = microseconds started_at;
        results = map (received characters) p.results;
      } in
      let is_run =
        built-read_run floating characters parse_uuid default_id run_id id source started_at rs p
          parsed built in
      let (sent, pr, later, e, ships_b, carries, ships_a) =
        Ships-split floating characters before after r p.results
          (pushable_lem floating r a b tcp tls_ok) ships in
      let (st, found, is_up, at) =
        shown (json (read_run characters parse_uuid default_id (payload_document p))) run
          (ap json is_run) s r pr before after sent later (ap (map (received characters)) e) ships_b
          carries ships_a new created older older_rows in
      let same_tcp : pr.tcp_ok ≡ a = some-eq (sym carries.6 ∙ tcp) in
      let same_tls : pr.tls_ok ≡ b = some-eq (sym carries.7 ∙ tls_ok) in
      (st, found, is_up ∙ (λ i. same_tcp i && same_tls i) ∙ up, at)
