-- ===== src/Document/Laws.antt =====
-- Which keys the documents of cmd/nodecheck have.
use mathlib.Core.Option
use mathlib.Core.Path.{subst}
use tunnel_ops.Base.{
  ℕ, Str, codes, str_eq, Bool, true, false, List, [], ◌∷◌, Option, none, some, is_some,
  if◌then◌else◌, some-eq, ◌≡◌, refl, sym, ap, ◌∙◌, arith,
}
use tunnel_ops.Target.{Target, Result}
use tunnel_ops.Prober.{Runtime, ProbeEnv, probe}
use tunnel_ops.Prober.Laws.{built_in, probers_lem, probe-Describes}
use tunnel_ops.Prober.Phases.{asks_tls, probe-legacy}
use tunnel_ops.Document.{Json, Fields, Part, fields_of, result_parts, result_document, member}

module _ {Float64 : Type 0} where
  -- The first value under a key that is not left out.
  abbrev or_else : Option (Json Float64) → Option (Json Float64) → Option (Json Float64)
  or_else none later = later
  or_else (some v) later = some v

  find : Str → List (Part Float64) → Option (Json Float64)
  find k [] = none
  find k ((j, v) ∷ parts) = if str_eq j k then or_else v (find k parts) else find k parts

  member-fields_of :
      (k : Str) (parts : List (Part Float64)) → member k (fields_of parts) ≡ find k parts
  unfolding member fields_of find
  member-fields_of k [] = refl
  member-fields_of k ((j, none) ∷ parts) = ground (arith, member-fields_of k parts)
  member-fields_of k ((j, some v) ∷ parts) = ground (arith, member-fields_of k parts)

  -- Whether a document has a key.
  abbrev pub has : Str → Fields Float64 → Bool
  has k fields = is_some (member k fields)

  is_some-or_else : (o : Option (Json Float64)) → is_some (or_else o none) ≡ is_some o
  is_some-or_else none = refl
  is_some-or_else (some v) = refl

  is_some-map :
      {A : Type 0} (f : A → Json Float64) (o : Option A) → is_some (Option.map f o) ≡ is_some o
  is_some-map f none = refl
  is_some-map f (some a) = refl

  -- A pointer's key is there where the pointer is not nil.
  has_pointer :
      {A : Type 0} (k : Str) (f : A → Json Float64) (o : Option A) (r : Result Float64)
      → find k (result_parts r) ≡ or_else (Option.map f o) none
      → has k (result_document r) ≡ is_some o
  unfolding result_document
  has_pointer k f o r h =
      ap is_some (member-fields_of k (result_parts r) ∙ h)
      ∙ is_some-or_else (Option.map f o)
      ∙ is_some-map f o

  -- The keys of the tcp and tls phases, all there or all absent.
  abbrev pub HasPhaseKeys : Fields Float64 → Bool → Type 0
  HasPhaseKeys doc b =
      (has (codes "tcp_ok") doc ≡ b)
      × (has (codes "tls_ok") doc ≡ b)
      × (has (codes "tcp_seconds") doc ≡ b)
      × (has (codes "tls_seconds") doc ≡ b)
      × (has (codes "cert_match") doc ≡ b)

  result_document-params :
      (r : Result Float64) → r.params ≡ [] → has (codes "params") (result_document r) ≡ false
  unfolding result_document result_parts find str_eq
  result_document-params r h =
      ap is_some (member-fields_of (codes "params") (result_parts r)) ∙ rw h refl

  result_document-phases :
      (r : Result Float64) → r.phases ≡ [] → has (codes "phases") (result_document r) ≡ false
  unfolding result_document result_parts find str_eq
  result_document-phases r h =
      ap is_some (member-fields_of (codes "phases") (result_parts r)) ∙ rw h refl

module _ (rt : Runtime) where
  open rt use {floating, setting}
  open floating use {Float64}

  -- The document of a probe's result has all the keys of the tcp and tls phases where the target
  -- asks for the TLS prober, and none of them otherwise; it has a list of phases only for the other
  -- probers, and never the parameters of the target. This does not depend on what the probe meets.
  pub result_document-keys :
      (t : Target) (env : ProbeEnv setting) (timeout finished : ℕ) (q : Result Float64)
      → probe rt built_in t env timeout ≡ some q
      → let doc = result_document (record q { timestamp = finished }) in
        HasPhaseKeys doc (asks_tls rt t)
        × (asks_tls rt t ≡ true → has (codes "phases") doc ≡ false)
        × (has (codes "params") doc ≡ false)
  unfolding result_parts find str_eq
  result_document-keys t env timeout finished q h =
      let r : Result Float64 = record q { timestamp = finished } in
      let (legacy, alone) = probe-legacy rt t env timeout q h in
      let (q', probed, described, silent) = probe-Describes rt built_in t env timeout probers_lem in
      let bare : q.params ≡ [] =
        subst (λ x. x.params ≡ []) (some-eq (sym probed ∙ h)) described.0 in
      (
        (
          has_pointer (codes "tcp_ok") Json.boolean q.tcp_ok r refl ∙ legacy.0,
          has_pointer (codes "tls_ok") Json.boolean q.tls_ok r refl ∙ legacy.1,
          has_pointer (codes "tcp_seconds") Json.number q.tcp_time r refl ∙ legacy.2,
          has_pointer (codes "tls_seconds") Json.number q.tls_time r refl ∙ legacy.3,
          has_pointer (codes "cert_match") Json.boolean q.cert_match r refl ∙ legacy.4,
        ),
        (λ k. result_document-phases r (alone k)),
        result_document-params r bare,
      )
