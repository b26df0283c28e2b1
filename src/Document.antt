-- ===== src/Document.antt =====
-- The JSON documents of cmd/nodecheck: the struct tags of `Target`, `Result` and `phaseJSON` (main.go)
-- and of the payload types (push.go). A document is a tree; how encoding/json writes it is its own.
pub mod Laws
mod Tests
use Prim.Native.String.{String}
use mathlib.Core.Option
use tunnel_ops.Base.{
  ℕ, Str, codes, str_eq, Bool, List, [], ◌∷◌, ◌++◌, Option, none, some, if◌then◌else◌,
}
use tunnel_ops.Target.{Target, Result, PhaseJson}
use tunnel_ops.Push.{PushNode, PushResult, PushPayload}

-- `raw` is a json.RawMessage, which stands as it is.
mutual
  pub data Json (Float64 : Type 0) : Type 0 where
    text : Str → Json Float64
    number : Float64 → Json Float64
    boolean : Bool → Json Float64
    time : ℕ → Json Float64
    raw : Str → Json Float64
    array : Elements Float64 → Json Float64
    object : Fields Float64 → Json Float64

  pub data Elements (Float64 : Type 0) : Type 0 where
    no_elements : Elements Float64
    element : Json Float64 → Elements Float64 → Elements Float64

  pub data Fields (Float64 : Type 0) : Type 0 where
    no_fields : Fields Float64
    field : Str → Json Float64 → Fields Float64 → Fields Float64

-- A field of a struct: its key, and its value unless `omitempty` leaves it out.
abbrev pub Part : Type 0 → Type 0
Part Float64 = Str × Option (Json Float64)

module _ {Float64 : Type 0} where
  abbrev pub always : String → Json Float64 → Part Float64
  always key value = (codes key, some value)

  abbrev text_or_none : Str → Option (Json Float64)
  text_or_none [] = none
  text_or_none (c ∷ s) = some (text (c ∷ s))

  abbrev raw_or_none : Str → Option (Json Float64)
  raw_or_none [] = none
  raw_or_none (c ∷ s) = some (raw (c ∷ s))

  abbrev pub elements {ℓ} : {A : Type ℓ} → (A → Json Float64) → List A → Elements Float64
  elements f [] = no_elements
  elements f (a ∷ more) = element (f a) (elements f more)

  abbrev array_or_none {ℓ} : {A : Type ℓ} → (A → Json Float64) → List A → Option (Json Float64)
  array_or_none f [] = none
  array_or_none f (a ∷ more) = some (array (element (f a) (elements f more)))

  -- `omitempty` of a string, of raw JSON, of a pointer and of a slice.
  abbrev pub text_omitempty : String → Str → Part Float64
  text_omitempty key s = (codes key, text_or_none s)

  abbrev pub raw_omitempty : String → Str → Part Float64
  raw_omitempty key s = (codes key, raw_or_none s)

  abbrev pub pointer_omitempty {ℓ} :
      {A : Type ℓ} → String → (A → Json Float64) → Option A → Part Float64
  pointer_omitempty key f o = (codes key, Option.map f o)

  abbrev pub slice_omitempty {ℓ} :
      {A : Type ℓ} → String → (A → Json Float64) → List A → Part Float64
  slice_omitempty key f more = (codes key, array_or_none f more)

  -- The fields that are there, in the struct's order.
  unfoldable pub fields_of : List (Part Float64) → Fields Float64
  fields_of [] = no_fields
  fields_of ((k, none) ∷ parts) = fields_of parts
  fields_of ((k, some v) ∷ parts) = field k v (fields_of parts)

  unfoldable pub phase_document : PhaseJson Float64 → Json Float64
  unfolding fields_of
  phase_document ph = object (
      fields_of (
        always "name" (text ph.name)
        ∷ always "ok" (boolean ph.ok)
        ∷ always "seconds" (number ph.seconds)
        ∷ text_omitempty "error" ph.error
        ∷ []))

  abbrev pub target_parts : Target → List (Part Float64)
  target_parts t =
      always "name" (text t.name)
      ∷ always "addr" (text t.addr)
      ∷ always "sni" (text t.sni)
      ∷ always "region" (text t.region)
      ∷ text_omitempty "provider" t.provider
      ∷ text_omitempty "proto" t.proto
      ∷ raw_omitempty "params" t.params
      ∷ []

  -- The fields of the embedded `Target` stand in front.
  unfoldable pub result_parts : Result Float64 → List (Part Float64)
  unfolding phase_document
  result_parts r =
      target_parts r.target
      ++ (always "ok" (boolean r.ok)
          ∷ pointer_omitempty "tcp_ok" boolean r.tcp_ok
          ∷ pointer_omitempty "tls_ok" boolean r.tls_ok
          ∷ always "ts" (time r.timestamp)
          ∷ pointer_omitempty "tcp_seconds" number r.tcp_time
          ∷ pointer_omitempty "tls_seconds" number r.tls_time
          ∷ text_omitempty "tls_version" r.tls_ver
          ∷ text_omitempty "alpn" r.alpn
          ∷ text_omitempty "cert_cn" r.cert_cn
          ∷ pointer_omitempty "cert_match" boolean r.cert_match
          ∷ text_omitempty "error" r.error
          ∷ slice_omitempty "phases" phase_document r.phases
          ∷ [])

  unfoldable pub result_document : Result Float64 → Fields Float64
  unfolding result_parts fields_of
  result_document r = fields_of (result_parts r)

  unfoldable pub node_document : PushNode → Json Float64
  unfolding fields_of
  node_document n = object (
      fields_of (
        always "name" (text n.name)
        ∷ always "addr" (text n.addr)
        ∷ always "sni" (text n.sni)
        ∷ text_omitempty "provider" n.provider
        ∷ []))

  unfoldable pub push_document : PushResult Float64 → Json Float64
  unfolding node_document fields_of
  push_document r = object (
      fields_of (
        always "node" (node_document r.node)
        ∷ always "ts" (time r.ts)
        ∷ always "tcp_ok" (boolean r.tcp_ok)
        ∷ always "tls_ok" (boolean r.tls_ok)
        ∷ pointer_omitempty "latency_ms" number r.latency_ms
        ∷ text_omitempty "error" r.error
        ∷ text_omitempty "failed_phase" r.failed_phase
        ∷ []))

  unfoldable pub payload_document : PushPayload Float64 → Json Float64
  unfolding push_document fields_of
  payload_document p = object (
      fields_of (
        always "run_id" (text p.run_id)
        ∷ always "source" (text p.source)
        ∷ always "started_at" (time p.started_at)
        ∷ always "results" (array (elements push_document p.results))
        ∷ []))

  -- The value under a key, the first one that there is.
  unfoldable pub member : Str → Fields Float64 → Option (Json Float64)
  member k no_fields = none
  member k (field j v rest) = if str_eq j k then some v else member k rest
