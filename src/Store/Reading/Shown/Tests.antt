-- ===== src/Store/Reading/Shown/Tests.antt =====
-- A process that pushes a healthy node to a store, whose first reply is lost.
use tunnel_ops.Base.{
  padded, hexadecimal, sym, ap, some-eq, ◌∙◌, ℕ, zero, suc, Str, true, codes, str_eq, List, [], ◌∷◌,
  Option, none, some, ok, ◌≡◌, refl, if◌then◌else◌, ◌==◌,
}
use tunnel_ops.Samples.{nanos}
use tunnel_ops.Samples.Batch.{empty}
use tunnel_ops.Samples.Edge.{edge, sent, probed}
use tunnel_ops.Samples.Offline.{runtime}
use tunnel_ops.Samples.Sorting.{sort_by}
use tunnel_ops.Tls.{validate_tls, probe_tls}
use tunnel_ops.Prober.{tls, validate}
use tunnel_ops.Prober.Laws.{built_in, probers_lem, prober_for_iff}
use tunnel_ops.Loading.Laws.{load_targets_iff}
use tunnel_ops.Push.{PushPayload, new_uuid_v4, carried, build_payload, pushable, failed_phase}
use tunnel_ops.Push.Delivery.{Request, request_of, push_results, no_response, response}
use tunnel_ops.Report.{write_prom}
use tunnel_ops.Document.{payload_document, member}
use tunnel_ops.Command.{
  Flags, World, Ended, ended, default_flags, main, source_of, name_lt, write_results, push_stage,
  any_down,
}
use tunnel_ops.Command.Stages.{loading}
use tunnel_ops.Store.{committed, Body, json, post_run}
use tunnel_ops.Store.Schema.{read_run}
use tunnel_ops.Store.Delivered.{Course, unheard, heard}
use tunnel_ops.Store.Tables.{Tables, tables, tables-Documented}
use tunnel_ops.Store.Tables.Selected.{selects}
use tunnel_ops.Store.Tables.Selected.Joins.{tables-Read, rows-tables}
use tunnel_ops.Store.Reading.Pushed.{Shows}
use tunnel_ops.Store.Reading.Shown.{Decodes, Fresh, main-list_nodes}

abbrev flags : Flags
flags = record default_flags {
  format = codes "prom";
  push_url = codes "https://probes.example.com/v1/runs";
  push_source = codes "host";
}

abbrev world : World runtime
world = record {
  read_file = λ path. ok (codes "[]");
  unmarshal = λ text. ok (edge ∷ []);
  generated = λ i. ok i;
  now = 1;
  ran = λ ts timeout conc. sent ∷ [];
  sort_slice = sort_by (λ r. r.name);
  encode = λ rs. ok (codes "[]");
  hostname = ok (codes "prober");
  random = ok (codes "0123456789abcdef");
  push_token = codes "token";
  marshal = λ p. ok (codes "{}");
  trim_space = λ s. s;
  answers = λ timeout i. record {
    cancelled = none;
    answer =
        if i == 0 then no_response (codes "timeout") else response 201 (codes "201 Created") [];
  };
}

-- The random bytes as a UUID of version 4.
abbrev run_id : Str
run_id = codes "30313233-3435-4637-b839-616263646566"

abbrev payload : PushPayload ℕ
payload = record {
  run_id = run_id;
  source = codes "host";
  started_at = 1;
  results = carried nanos sent true true ∷ [];
}

loaded : loading runtime world flags ≡ ok (edge ∷ [])
unfolding validate validate_tls
loaded =
    let resolved = (prober_for_iff runtime built_in edge tls probers_lem).1 refl in
    (load_targets_iff runtime world.unmarshal world.generated built_in flags.targets_file
        (world.read_file flags.targets_file) (edge ∷ [])).1
      (codes "[]", refl, refl, (λ h. cc), ((tls, resolved, refl), tt))

identified : new_uuid_v4 world.random ≡ ok run_id
unfolding new_uuid_v4 padded hexadecimal
identified = refl

abbrev request : Request
request = request_of (codes "https://probes.example.com/v1/runs") (codes "token") (codes "{}")

abbrev e : Ended
e = ended 0 (write_prom nanos (sent ∷ [])) [] (request ∷ request ∷ [])

ends : main runtime world flags ≡ some e
unfolding main name_lt new_uuid_v4 write_results push_stage any_down build_payload pushable
    push_results str_eq probe_tls
ends = rw (probers_lem, loaded) refl

abbrev served : Tables ℕ
served =
    (post_run tables committed (codes "token") (some (codes "token"))
      (json (read_run (λ s. s) some (codes "new") (payload_document payload))) empty).1

-- The database before each request, and behind the last one.
abbrev states : ℕ → Tables ℕ
states zero = empty
states (suc i) = served

abbrev decode : Str → Body ℕ
decode body = json (read_run (λ s. s) some (codes "new") (payload_document payload))

abbrev credentials_of : List (Str × Str) → Option Str
credentials_of headers = some (codes "token")

course :
    Course tables tables-Documented
      (codes "token")
      credentials_of
      decode
      (world.answers flags.push_timeout)
      states
      0
      e.requests
unfolding post_run read_run payload_document str_eq member probe_tls failed_phase
course = (unheard (λ h. h), (heard (codes "201 Created") [], tt))

built : build_payload nanos run_id (codes "host") 1 (sent ∷ []) ≡ some payload
unfolding build_payload pushable probe_tls str_eq
built = refl

decodes :
    Decodes runtime world flags tables tables-Documented selects tables-Read
      (λ s. s)
      some
      (codes "new")
      (codes "token")
      credentials_of
      decode
      (edge ∷ [])
unfolding source_of name_lt
decodes id p body made built' marshalled =
    let made_so = identified in
    let named : id ≡ run_id = cc in
    let same : p ≡ payload =
      some-eq
        (sym built' ∙ ap (λ k. build_payload nanos k (codes "host") 1 (sent ∷ [])) named ∙ built) in
    rw same refl

fresh :
    Fresh runtime world flags tables tables-Documented selects tables-Read
      (λ s. s)
      some
      (codes "new")
      (codes "token")
      credentials_of
      decode
      empty
fresh id made = (id, refl, refl)

main-list_nodes_example :
    Shows nanos tables tables-Documented selects tables-Read (λ s. s) sent true (states 2)
unfolding str_eq probe_tls
main-list_nodes_example =
    main-list_nodes runtime world flags tables tables-Documented selects tables-Read (λ s. s) some
      (codes "new") (codes "token") credentials_of decode (edge ∷ []) edge sent [] [] e states refl
      (λ h. cc) loaded ends refl refl (probed flags.timeout) refl decodes fresh course tt
      (λ i h. rw (rows-tables empty) tt)
