-- ===== src/Store/Reading/Tests.antt =====
-- What the store shows, at a database of lists, a run of two results, and a push of one.
use tunnel_ops.Base.{
  ℕ, length, str_eq, codes, arith, ap, ◌∙◌, map, true, false, List, [], ◌∷◌, some, ◌≡◌, refl, inl,
  inr,
}
use tunnel_ops.Samples.{nanos}
use tunnel_ops.Samples.Batch.{healthy, masked, run, empty, behind}
use tunnel_ops.Samples.Edge.{edge, sent, probed}
use tunnel_ops.Samples.Offline.{runtime}
use tunnel_ops.Tls.{probe_tls}
use tunnel_ops.Push.{PushPayload, carried, build_payload, pushable, failed_phase}
use tunnel_ops.Document.{payload_document, member}
use tunnel_ops.Store.{ProbeResult, Reply, run_accepted, ingest_run, key_eq, key_of, post_run}
use tunnel_ops.Store.Dicts.{key_eq_refl}
use tunnel_ops.Store.Schema.{read_run}
use tunnel_ops.Store.Tables.{Tables, tables, tables-Documented}
use tunnel_ops.Store.Tables.Selected.{selects}
use tunnel_ops.Store.Tables.Selected.Joins.{tables-Read, rows-tables}
use tunnel_ops.Store.Reading.{Node, Selects, NodeStatus, list_nodes}
use tunnel_ops.Store.Reading.Queries.{Pairwise}
use tunnel_ops.Store.Reading.Metrics.{Formats, metric_lines}
use tunnel_ops.Store.Reading.Metrics.{metrics}
use tunnel_ops.Store.Reading.Metrics.Lines.{lines}
use tunnel_ops.Store.Reading.Metrics.Plain.{Plain}
use tunnel_ops.Store.Reading.Metrics.Samples.{read_lines, samples}
use tunnel_ops.Store.Reading.Metrics.Distinct.{Differ}
use tunnel_ops.Store.Reading.Metrics.Exposed.{metrics-samples}
use tunnel_ops.Store.Reading.Latest.{Says, status_of, Newest, list_nodes-ingest_run}
use tunnel_ops.Store.Reading.Probes.{filed_under}
use tunnel_ops.Store.Reading.Pushed.{stored_push, probe-list_nodes}

ingested_run : ingest_run tables run empty ≡ some (run_accepted (codes "a") 2 false, behind)
unfolding ingest_run str_eq
ingested_run = refl

other_key : key_eq (key_of healthy.node) (key_of masked.node) ≡ false
unfolding str_eq
other_key = refl

other_node : key_of healthy.node ≡ key_of masked.node → ⊥
other_node e =
    let same : key_eq (key_of healthy.node) (key_of masked.node) ≡ true =
      ap (λ k. key_eq k (key_of masked.node)) e ∙ key_eq_refl (key_of masked.node) in
    ground (arith, same, other_key)

newest_masked : Newest tables tables-Documented selects tables-Read empty behind run.results masked
newest_masked =
    (((λ e. absurd (other_node e)), ((λ e. inl refl), tt)), λ i h. rw (rows-tables empty) tt)

list_nodes-ingest_run_example :
    (st : NodeStatus ℕ) × (status_of (key_of masked.node) (list_nodes tables selects behind)
      ≡ some st)
    × Says st masked
list_nodes-ingest_run_example =
    list_nodes-ingest_run tables tables-Documented selects tables-Read run empty behind
      (run_accepted (codes "a") 2 false) masked refl ingested_run (inr (inl refl)) newest_masked

statuses : map (λ st. NodeStatus.up st) (list_nodes tables selects behind) ≡ true ∷ false ∷ []
unfolding list_nodes str_eq
statuses = refl

-- A push of a healthy node.
abbrev payload : PushPayload ℕ
payload = record {
  run_id = codes "b";
  source = codes "host";
  started_at = 1;
  results = carried nanos sent true true ∷ [];
}

abbrev push : Reply × Tables ℕ
push =
    stored_push runtime tables tables-Documented selects tables-Read (λ s. s) some (codes "new")
      (codes "token") (some (codes "token")) payload empty

push_status : push.0.status ≡ 201
unfolding post_run read_run payload_document str_eq member probe_tls failed_phase
push_status = refl

probe-list_nodes_example :
    (st : NodeStatus ℕ) × (status_of
        (filed_under nanos (λ s. s) sent)
        (list_nodes tables selects push.1)
      ≡ some st)
    × (st.up ≡ sent.ok)
    × (st.ts ≡ 9000)
unfolding str_eq probe_tls
probe-list_nodes_example =
    probe-list_nodes runtime tables tables-Documented selects tables-Read (λ s. s) some
      (codes "new") (codes "token") (some (codes "token")) 30 edge sent [] [] (codes "b")
      (codes "b") (codes "host") 1 payload empty (probed 30) refl
      (unfold build_payload pushable in refl) refl refl push_status tt
      (λ i h. rw (rows-tables empty) tt)

abbrev formats : Formats ℕ
formats = record { seconds = λ ms. codes "0.024000"; age = λ now ts. codes "11.0" }

abbrev selected : List (Node × ProbeResult ℕ)
selected = Selects.latest_per_node selects behind

seconds-Plain : Plain formats 20
seconds-Plain = ((λ x. refl), λ t t'. refl)

metrics-samples_example :
    (read_lines (lines (metrics formats 20 tables selects behind))
      ≡ some (samples formats 20 selected))
    × Pairwise Differ (samples formats 20 selected)
metrics-samples_example =
    metrics-samples tables tables-Documented selects tables-Read formats 20 behind seconds-Plain

metrics_length : length (metric_lines formats 20 selected) ≡ 11
unfolding metric_lines str_eq
metrics_length = refl
