-- ===== src/Store/Reading/Shown.antt =====
-- From the exit code of cmd/nodecheck/main.go to what GET /v1/nodes of probestore shows.
mod Tests
use mathlib.Core.Path.{subst}
use mathlib.Core.List.{Mem, mem-append_right, mem-cons_self}
use tunnel_ops.Base.{
  ℕ, Str, true, false, List, [], ◌∷◌, ◌++◌, length, Option, none, some, ok, ◌≡◌, ◌≢◌, sym, ap, ◌∙◌,
}
use tunnel_ops.Target.{Floating, Target, Result}
use tunnel_ops.Prober.{Runtime}
use tunnel_ops.Prober.Laws.{built_in}
use tunnel_ops.Prober.Phases.{asks_tls}
use tunnel_ops.RunAll.Probes.{Probed}
use tunnel_ops.Push.{PushPayload, new_uuid_v4, build_payload}
use tunnel_ops.Push.Delivery.{request_of, push_results}
use tunnel_ops.Command.{Flags, World, Ended, source_of, main}
use tunnel_ops.Command.Stages.{loading, reported}
use tunnel_ops.Command.Sent.{main-Sent}
use tunnel_ops.Document.{payload_document}
use tunnel_ops.Store.{committed, Body, json, Database, post_run}
use tunnel_ops.Store.Documents.{Documented}
use tunnel_ops.Store.Schema.{read_run}
use tunnel_ops.Store.Delivered.{Course, push_results-Delivered}
use tunnel_ops.Store.Reading.{Selects}
use tunnel_ops.Store.Reading.Queries.{Read}
use tunnel_ops.Store.Reading.Probes.{Older}
use tunnel_ops.Store.Reading.Pushed.{OlderRows, Shows, stored_push, probe-list_nodes}

module _ (rt : Runtime) (world : World rt) (flags : Flags)
    (db : Database (Floating.Float64 (Runtime.floating rt))) (doc : Documented db) (q : Selects db)
    (read : Read db doc q) (characters : Str → Str) (parse_uuid : Str → Option Str)
    (default_id api_token : Str) (credentials_of : List (Str × Str) → Option Str)
    (decode : Str → Body (Floating.Float64 (Runtime.floating rt))) where
  open rt use {floating}
  open floating use {Float64}
  open db use {State, find_run}

  -- The service reads the text that json.Marshal makes of the payload as the payload's document.
  abbrev pub Decodes : List Target → Type 0
  Decodes ts =
      (run_id : Str) (p : PushPayload Float64) (body : Str)
      → new_uuid_v4 world.random ≡ ok run_id
      → build_payload floating run_id (source_of flags.push_source world.hostname) world.now
          (reported rt world flags ts)
        ≡ some p
      → world.marshal p ≡ ok body
      → decode body ≡ json (read_run characters parse_uuid default_id (payload_document p))

  -- The identifier that the command makes is read as a UUID that no stored run has.
  abbrev pub Fresh : State → Type 0
  Fresh s =
      (run_id : Str)
      → new_uuid_v4 world.random ≡ ok run_id
      → (id : Str) × (parse_uuid run_id ≡ some id) × (find_run id s ≡ none)

  -- Where the command has a URL to push to and ends with exit code 0, the store shows the node of a
  -- target of the TLS prober up, as of the time of the reported result of its probe without what it
  -- has beyond microseconds. This is at the database behind the requests of the command, of which
  -- some may be lost or rolled back, or their replies lost, and where no other request comes in
  -- between; where the service reads what json.Marshal writes, the identifier is new to the store,
  -- and the other results of the node are older, counted in microseconds, in the batch and in what
  -- was stored before.
  pub main-list_nodes :
      (ts : List Target) (t : Target) (r : Result Float64) (before after : List (Result Float64))
      (e : Ended) (states : ℕ → State)
      → flags.show_version ≡ false
      → flags.push_url ≢ []
      → loading rt world flags ≡ ok ts
      → main rt world flags ≡ some e
      → e.code ≡ 0
      → reported rt world flags ts ≡ before ++ r ∷ after
      → Probed rt built_in flags.timeout t r
      → asks_tls rt t ≡ true
      → Decodes ts
      → Fresh (states 0)
      → Course db doc api_token credentials_of decode
          (world.answers flags.push_timeout)
          states
          0
          e.requests
      → Older floating characters r (before ++ after)
      → OlderRows floating db doc q read characters r (states 0) (states (length e.requests))
      → Shows floating db doc q read characters r true (states (length e.requests))
  main-list_nodes ts t r before after e states runs given loaded ends zero_code among probed asked
        decodes fresh course older older_rows =
      let (healthy, (run_id, p, body, made, built, marshalled, sent)) =
        main-Sent rt world flags ts e runs given loaded ends zero_code in
      let request = request_of flags.push_url world.push_token body in
      let rounds = world.answers flags.push_timeout in
      let log : (push_results world.trim_space flags.push_url world.push_token (ok body) rounds).0
          ≡ e.requests =
        ap (λ w. w.0) sent in
      let (created, last) =
        push_results-Delivered db doc api_token credentials_of decode world.trim_space
          flags.push_url world.push_token body rounds states (rw log course) (ap (λ w. w.1) sent) in
      let read_as = decodes run_id p body made built marshalled in
      let (id, parsed, new) = fresh run_id made in
      let up : r.ok ≡ true =
        healthy r (subst (Mem r) (sym among) (mem-append_right before mem-cons_self)) in
      let credentials = credentials_of request.headers in
      let reached : states (length e.requests)
          ≡ (stored_push rt db doc q read characters parse_uuid default_id api_token credentials p
              (states 0)).1 =
        ap (λ l. states (length l)) (sym log)
        ∙ last
        ∙ ap (λ o. (post_run db committed api_token credentials o (states 0)).1) read_as in
      let status_ok =
        ap (λ o. (post_run db committed api_token credentials o (states 0)).0.status) (sym read_as)
        ∙ created in
      let (st, found, is_up, at) =
        probe-list_nodes rt db doc q read characters parse_uuid default_id api_token credentials
          flags.timeout t r before after run_id id (source_of flags.push_source world.hostname)
          world.now p (states 0) probed asked
          (ap (build_payload floating run_id (source_of flags.push_source world.hostname) world.now)
              (sym among)
            ∙ built)
          parsed new status_ok older (rw reached at older_rows) in
      rw reached (st, found, is_up ∙ up, at)
