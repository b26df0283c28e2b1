-- ===== src/Store/Schema/Contract.antt =====
-- What probestore receives of a payload of cmd/nodecheck/push.go.
use mathlib.Core.Path.{subst}
use tunnel_ops.Base.{
  Option-cases, some-eq, sym, arith, ℕ, Str, codes, str_eq, List, [], ◌∷◌, map, All, Option, none,
  some, if◌then◌else◌, ◌≡◌, refl, ap, ◌∙◌, inl, inr,
}
use tunnel_ops.Target.{Floating, Result}
use tunnel_ops.Push.{PushNode, PushResult, PushPayload, build_payload}
use tunnel_ops.Push.Laws.{NamesPhase, Ships-NamesPhase, build_payload-Ships}
use tunnel_ops.Document.{
  node_document, push_document, payload_document, elements, fields_of, member,
}
use tunnel_ops.Store.{NodeRef, FailedPhase, ResultIn, RunIn}
use tunnel_ops.Store.Schema.{
  microseconds, read_text, read_bool, read_time, read_text_or_none, read_number_or_none,
  read_phase_or_none, read_id, read_node, read_result, read_elements, read_results, read_run,
}

abbrev pub phase_named : Str → Option FailedPhase
phase_named s =
    if str_eq s (codes "tcp")
    then some FailedPhase.tcp
    else if str_eq s (codes "tls")
    then some FailedPhase.tls
    else none

module _ (characters : Str → Str) where
  -- An empty text is not sent.
  abbrev pub sent_text : Str → Option Str
  sent_text [] = none
  sent_text (c ∷ s) = some (characters (c ∷ s))

  abbrev pub received_node : PushNode → NodeRef
  received_node n = record {
    name = characters n.name;
    addr = characters n.addr;
    sni = characters n.sni;
    provider = sent_text n.provider;
  }

  abbrev pub received : {Float64 : Type 0} → PushResult Float64 → ResultIn Float64
  received r = record {
    node = received_node r.node;
    ts = microseconds r.ts;
    tcp_ok = r.tcp_ok;
    tls_ok = r.tls_ok;
    latency_ms = r.latency_ms;
    error = sent_text r.error;
    failed_phase = phase_named r.failed_phase;
  }

module _ (Float64 : Type 0) (characters : Str → Str) (parse_uuid : Str → Option Str)
    (default_id : Str) where
  read_node-node_document :
      (n : PushNode) (provider : Str)
      → read_node characters parse_uuid default_id
          (some (node_document {Float64 = Float64} (record n { provider = provider })))
        ≡ some (received_node characters (record n { provider = provider }))
  unfolding read_node read_text read_text_or_none node_document fields_of member str_eq
  read_node-node_document n [] = refl
  read_node-node_document n (c ∷ s) = refl

  -- With the fields that may be left out as they stand.
  read_result-fields :
      (r : PushResult Float64) (node : NodeRef) (latency : Option Float64) (error failed : Str)
      → NamesPhase failed
      → read_node characters parse_uuid default_id (some (node_document {Float64 = Float64} r.node))
        ≡ some node
      → read_result characters parse_uuid default_id
          (push_document (record r { latency_ms = latency; error = error; failed_phase = failed }))
        ≡ some (record {
          node = node;
          ts = microseconds r.ts;
          tcp_ok = r.tcp_ok;
          tls_ok = r.tls_ok;
          latency_ms = latency;
          error = sent_text characters error;
          failed_phase = phase_named failed;
        })
  unfolding read_result read_bool read_time read_number_or_none read_text_or_none read_phase_or_none
      push_document fields_of member str_eq
  read_result-fields r node none [] failed (inl e) h = rw (e, h) refl
  read_result-fields r node none [] failed (inr (inl e)) h = rw (e, h) refl
  read_result-fields r node none [] failed (inr (inr e)) h = rw (e, h) refl
  read_result-fields r node none (c ∷ s) failed (inl e) h = rw (e, h) refl
  read_result-fields r node none (c ∷ s) failed (inr (inl e)) h = rw (e, h) refl
  read_result-fields r node none (c ∷ s) failed (inr (inr e)) h = rw (e, h) refl
  read_result-fields r node (some x) [] failed (inl e) h = rw (e, h) refl
  read_result-fields r node (some x) [] failed (inr (inl e)) h = rw (e, h) refl
  read_result-fields r node (some x) [] failed (inr (inr e)) h = rw (e, h) refl
  read_result-fields r node (some x) (c ∷ s) failed (inl e) h = rw (e, h) refl
  read_result-fields r node (some x) (c ∷ s) failed (inr (inl e)) h = rw (e, h) refl
  read_result-fields r node (some x) (c ∷ s) failed (inr (inr e)) h = rw (e, h) refl

  read_elements-push_document :
      (rs : List (PushResult Float64))
      → All (λ r. NamesPhase r.failed_phase) rs
      → read_elements characters parse_uuid default_id (elements push_document rs)
        ≡ some (map (received characters) rs)
  unfolding read_elements
  read_elements-push_document [] h = refl
  read_elements-push_document (r ∷ rs) h =
      rw
        (
          read_result-fields r (received_node characters r.node) r.latency_ms r.error r.failed_phase
              h.0 (read_node-node_document r.node r.node.provider),
          read_elements-push_document rs h.1,
        )
        refl

  read_run-payload_document :
      (id : Str) (p : PushPayload Float64)
      → All (λ r. NamesPhase r.failed_phase) p.results
      → parse_uuid p.run_id ≡ some id
      → read_run characters parse_uuid default_id (payload_document p)
        ≡ some (record {
          run_id = id;
          source = characters p.source;
          started_at = microseconds p.started_at;
          results = map (received characters) p.results;
        })
  unfolding read_run read_id read_text read_time read_results payload_document fields_of member
      str_eq
  read_run-payload_document id p h k = rw (k, read_elements-push_document p.results h) refl

  unread :
      (p : PushPayload Float64)
      → parse_uuid p.run_id ≡ none
      → read_run characters parse_uuid default_id (payload_document p) ≡ none
  unfolding read_run read_id payload_document fields_of member str_eq
  unread p h = rw h refl

  -- A payload without results is not read as a run with results.
  pub read_run-empty :
      (p : PushPayload Float64) (run : RunIn Float64)
      → p.results ≡ []
      → read_run characters parse_uuid default_id (payload_document p) ≡ some run
      → run.results ≡ []
  read_run-empty p run bare h = elim (Option-cases (parse_uuid p.run_id)) [
    | inl e ↦ absurd (ground (arith, unread p e, h))
    | inr (id, e) ↦
        let named : All (λ r. NamesPhase r.failed_phase) p.results =
          subst (All (λ r. NamesPhase r.failed_phase)) (sym bare) tt in
        let same = some-eq (sym h ∙ read_run-payload_document id p named e) in
        ap (λ r. r.results) same ∙ ap (map (received characters)) bare
  ]

-- The schema of probestore reads the document of every payload that `buildPayload` makes, where the
-- identifier is a UUID: as the run with this identifier, source and start, and with the payload's
-- results in their order, of which a text or a latency that was left out is none, and all times
-- without what they have beyond microseconds.
pub build_payload-read_run :
    (fl : Floating) (characters : Str → Str) (parse_uuid : Str → Option Str) (default_id : Str)
    (run_id id source : Str) (started_at : ℕ) (rs : List (Result (Floating.Float64 fl)))
    → parse_uuid run_id ≡ some id
    → (p : PushPayload (Floating.Float64 fl)) × (build_payload fl run_id source started_at rs
        ≡ some p)
      × (read_run characters parse_uuid default_id (payload_document p)
          ≡ some (record {
            run_id = id;
            source = characters source;
            started_at = microseconds started_at;
            results = map (received characters) p.results;
          }))
build_payload-read_run fl characters parse_uuid default_id run_id id source started_at rs h =
    let (p, built, id_kept, source_kept, start_kept, ships) =
      build_payload-Ships fl run_id source started_at rs in
    (
      p,
      built,
      read_run-payload_document (Floating.Float64 fl) characters parse_uuid default_id id p
            (Ships-NamesPhase fl ships) (ap parse_uuid id_kept ∙ h)
          ∙ λ i. some (record {
            run_id = id;
            source = characters (source_kept i);
            started_at = microseconds (start_kept i);
            results = map (received characters) p.results;
          }),
    )

-- The same of a payload that was made.
pub built-read_run :
    (fl : Floating) (characters : Str → Str) (parse_uuid : Str → Option Str) (default_id : Str)
    (run_id id source : Str) (started_at : ℕ) (rs : List (Result (Floating.Float64 fl)))
    (p : PushPayload (Floating.Float64 fl))
    → parse_uuid run_id ≡ some id
    → build_payload fl run_id source started_at rs ≡ some p
    → read_run characters parse_uuid default_id (payload_document p)
      ≡ some (record {
        run_id = id;
        source = characters source;
        started_at = microseconds started_at;
        results = map (received characters) p.results;
      })
built-read_run fl characters parse_uuid default_id run_id id source started_at rs p parsed built =
    let (q, built', reads) =
      build_payload-read_run fl characters parse_uuid default_id run_id id source started_at rs
        parsed in
    subst
      (λ x.
        read_run characters parse_uuid default_id (payload_document x)
        ≡ some (record {
          run_id = id;
          source = characters source;
          started_at = microseconds started_at;
          results = map (received characters) (PushPayload.results x);
        }))
      (some-eq (sym built' ∙ built)) reads
