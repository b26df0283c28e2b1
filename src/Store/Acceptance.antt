-- ===== src/Store/Acceptance.antt =====
-- Which payloads of cmd/nodecheck/push.go POST /v1/runs of probestore accepts.
use mathlib.Core.Path.{subst}
use tunnel_ops.Base.{
  ℕ, ◌≤◌, Str, true, List, [], ◌∷◌, length, map, count_where, All, Option, some, some-eq, ◌≡◌, refl,
  sym, ◌∙◌, ◌≢◌, ◌↔◌, arith,
}
use tunnel_ops.Target.{Floating, Result}
use tunnel_ops.Push.{PushResult, PushPayload, pushable, build_payload}
use tunnel_ops.Push.Laws.{Ships, nothing, shipped, left_out, left_out_lem, built-Ships}
use tunnel_ops.Command.Fleet.{pushable_lem, Ships-length}
use tunnel_ops.Document.{payload_document}
use tunnel_ops.Store.{RunIn, json, Transaction, committed, Database, is_ascii, post_run}
use tunnel_ops.Store.Documents.{Documented}
use tunnel_ops.Store.Schema.{microseconds, read_run}
use tunnel_ops.Store.Schema.Contract.{sent_text, received_node, received, built-read_run}
use tunnel_ops.Store.Fits.{Within, NodeFits, RunFits}
use tunnel_ops.Store.Statuses.{Fits, post_run-created_iff}

module _ (fl : Floating) (characters : Str → Str) where
  open fl use {Float64}

  -- The target of a result is within the lengths of the schema.
  abbrev pub TargetFits : Result Float64 → Type 0
  TargetFits r =
      (length (characters r.name) ≤ 128)
      × (length (characters r.addr) ≤ 255)
      × (length (characters r.sni) ≤ 255)
      × Within 128 (sent_text characters r.provider)

  -- Each result that is pushed has such a target.
  abbrev pub PushableFit : List (Result Float64) → Type 0
  PushableFit = All (λ r. pushable fl r ≡ true → TargetFits r)

  abbrev ReceivedFit : List (PushResult Float64) → Type 0
  ReceivedFit prs = All (λ r. NodeFits r.node) (map (received characters) prs)

  Ships-Fit :
      {rs : List (Result Float64)} {prs : List (PushResult Float64)}
      → Ships fl rs prs
      → ReceivedFit prs ↔ PushableFit rs
  Ships-Fit nothing = (λ h. tt, λ h. tt)
  Ships-Fit (shipped {r} {pr} carries ships) =
      let rest = Ships-Fit ships in
      let fits = pushable_lem fl r pr.tcp_ok pr.tls_ok carries.6 carries.7 in
      let same : TargetFits r ≡ NodeFits (received_node characters pr.node) = λ i.
        (length (characters (sym carries.0 i)) ≤ 128)
        × (length (characters (sym carries.1 i)) ≤ 255)
        × (length (characters (sym carries.2 i)) ≤ 255)
        × Within 128 (sent_text characters (sym carries.3 i)) in
      (
        (λ h. ((λ e. subst (λ X. X) (sym same) h.0), rest.0 h.1)),
        λ h. (subst (λ X. X) same (h.0 fits), rest.1 h.1),
      )
  Ships-Fit (left_out {r} missing ships) =
      let rest = Ships-Fit ships in
      let unfit = left_out_lem fl r missing in
      ((λ h. ((λ e. absurd (ground (arith, e, unfit))), rest.0 h)), λ h. rest.1 h.1)

  map-nonempty : {A B : Type 0} (f : A → B) (xs : List A) → (map f xs ≢ []) ↔ (length xs ≢ 0)
  map-nonempty f [] = ((λ h e. h refl), λ h e. h refl)
  map-nonempty f (x ∷ xs) = ((λ h e. omega (arith, e)), λ h e. cc)

  Fits-RunFits :
      (db : Database Float64) (doc : Documented db) (run : RunIn Float64)
      → Fits db doc (json (some run)) ↔ RunFits run
  Fits-RunFits db doc run =
      ((λ (r, same, fits). subst RunFits (sym (some-eq same)) fits), λ fits. (run, refl, fits))

-- The payload that `buildPayload` makes, sent as its document, is answered by 201 exactly where its
-- statements are committed and confirmed, the request has the token, which is ASCII, the source is within 128 characters, some result measured both phases, and
-- each such result is of a target whose name and provider are within 128 characters and whose
-- address and SNI within 255. This is where the identifier is a UUID.
pub push-created_iff :
    (fl : Floating) (db : Database (Floating.Float64 fl)) (doc : Documented db)
    (characters : Str → Str) (parse_uuid : Str → Option Str) (carried : Transaction)
    (default_id api_token : Str) (credentials : Option Str) (run_id id source : Str)
    (started_at : ℕ) (rs : List (Result (Floating.Float64 fl)))
    (p : PushPayload (Floating.Float64 fl)) (s : Database.State db)
    → parse_uuid run_id ≡ some id
    → build_payload fl run_id source started_at rs ≡ some p
    → ((post_run db carried api_token credentials
          (json (read_run characters parse_uuid default_id (payload_document p)))
          s).0.status
        ≡ 201)
      ↔ ((carried ≡ committed)
          × (credentials ≡ some api_token)
          × (is_ascii api_token ≡ true)
          × (length (characters source) ≤ 128)
          × (count_where (pushable fl) rs ≢ 0)
          × PushableFit fl characters rs)
push-created_iff fl db doc characters parse_uuid carried default_id api_token credentials run_id id
      source started_at rs p s parsed built =
    let shipped_by = built-Ships fl run_id source started_at rs p built in
    let run : RunIn (Floating.Float64 fl) = record {
      run_id = id;
      source = characters source;
      started_at = microseconds started_at;
      results = map (received characters) p.results;
    } in
    let reads =
      built-read_run fl characters parse_uuid default_id run_id id source started_at rs p parsed
        built in
    let created =
      (post_run-created_iff db doc carried api_token credentials (json (some run)) s).0 in
    let fits = Fits-RunFits fl characters db doc run in
    let kept = Ships-Fit fl characters shipped_by in
    let some_kept = map-nonempty fl characters (received characters) p.results in
    let counted = Ships-length fl shipped_by in
    rw reads (
      (λ h.
          let (through, token, plain, fit) = created.0 h in
          let (source_fits, filled, all) = fits.0 fit in
          (
            through,
            token,
            plain,
            source_fits,
            (λ e. some_kept.0 filled (counted ∙ e)),
            kept.0 all,
          )),
      λ (through, token, plain, source_fits, filled, all). created.1 (
        through,
        token,
        plain,
        fits.1 (source_fits, some_kept.1 (λ e. filled (sym counted ∙ e)), kept.1 all),
      ),
    )
