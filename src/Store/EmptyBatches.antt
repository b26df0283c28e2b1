-- ===== src/Store/EmptyBatches.antt =====
-- That POST /v1/runs of probestore refuses the batches of cmd/nodecheck/push.go without results.
use tunnel_ops.Base.{ℕ, ◌≤◌, ◌<◌, Str, Option, some, ok, ◌≡◌, ◌≢◌, inl, inr, arith}
use tunnel_ops.Push.{PushPayload}
use tunnel_ops.Push.Delivery.{Round, response}
use tunnel_ops.Prober.{Runtime}
use tunnel_ops.Target.{Floating}
use tunnel_ops.Command.{Flags, World}
use tunnel_ops.Command.Fleet.{RefusesEmpty}
use tunnel_ops.Store.{json, Transaction, Database, post_run}
use tunnel_ops.Document.{Json, payload_document}
use tunnel_ops.Outcome.{◌>>=◌}
use tunnel_ops.Store.Schema.{read_run}
use tunnel_ops.Store.Schema.Contract.{read_run-empty}
use tunnel_ops.Store.Documents.{Documented}
use tunnel_ops.Store.Statuses.{Incomparable, Fails, post_run-created_iff}

below : {n : ℕ} → n ≤ 500 → n ≢ 500 → n < 500
below h k = ground (arith, h, k)

-- A probestore that answers a push refuses a batch without results, whatever its token, as long as
-- the tokens can be compared: this is what
-- the command's theorem on fleets without TLS targets supposes. What encoding/json writes is read
-- as the document that was written.
pub post_run-RefusesEmpty :
    (rt : Runtime) (world : World rt) (flags : Flags)
    (db : Database (Floating.Float64 (Runtime.floating rt))) (doc : Documented db)
    (carried : Transaction) (api_token : Str) (credentials : Option Str) (characters : Str → Str)
    (parse_uuid : Str → Option Str) (default_id : Str)
    (parse : Str → Option (Json (Floating.Float64 (Runtime.floating rt)))) (s : Database.State db)
    (status text : Str)
    → ((p : PushPayload (Floating.Float64 (Runtime.floating rt))) (body : Str)
        → World.marshal world p ≡ ok body
        → parse body ≡ some (payload_document p))
    → ((body : Str)
        → Round.answer (World.answers world flags.push_timeout 0)
          ≡ response
              (post_run db carried api_token credentials
                (json (parse body >>= read_run characters parse_uuid default_id))
                s).0.status
              status
              text)
    → (Incomparable api_token credentials → ⊥)
    → RefusesEmpty rt world flags
post_run-RefusesEmpty rt world flags db doc carried api_token credentials characters parse_uuid
      default_id parse s status text kept answered ascii p body bare marshalled =
    let run = read_run characters parse_uuid default_id (payload_document p) in
    let (created, failed, otherwise) =
      post_run-created_iff db doc carried api_token credentials (json run) s in
    rw (answered body, kept p body marshalled)
      (elim otherwise [
        | inl h ↦
            let (through, token, plain, (r, decoded, fits)) = created.0 h in
            absurd (fits.1 (read_run-empty _ characters parse_uuid default_id p r bare decoded))
        | inr (low, high, same) ↦ (low, below high (λ e. unfailing (failed.0 e)))
      ])
  where
    unfailing :
        Fails db doc carried api_token credentials
          (json (read_run characters parse_uuid default_id (payload_document p)))
        → ⊥
    unfailing (inl h) = ascii h
    unfailing (inr (down, same, plain, (r, decoded, fits))) =
        fits.1 (read_run-empty _ characters parse_uuid default_id p r bare decoded)
