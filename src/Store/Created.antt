-- ===== src/Store/Created.antt =====
-- The runs of accepted requests to POST /v1/runs of probestore (probestore/app/routers/ingest.py).
use tunnel_ops.Base.{
  Str, true, false, Option, none, some, Bool, Bool-cases, ◌≡◌, refl, inl, inr, arith,
}
use tunnel_ops.Store.{
  committed, RunIn, Body, json, RunAccepted, Database, valid_run, ingest_run, ingested, validated,
  token_ok, authorized, post_run,
}

-- A request that is answered by 201 ingests its run.
module _ {Float64 : Type 0} (db : Database Float64) where
  open db use {State}

  ingested-created :
      (s : State) (o : Option (RunAccepted × State))
      → (ingested db s o).0.status ≡ 201
      → (a : RunAccepted) × (o ≡ some (a, (ingested db s o).1))
  unfolding ingested
  ingested-created s none h = absurd (omega (arith, h))
  ingested-created s (some (a, s')) h = (a, refl)

  authorized-created :
      (o : Option Bool) (run : RunIn Float64) (s : State)
      → (authorized db committed o (some run) s).0.status ≡ 201
      → (a : RunAccepted) × (ingest_run db run s
          ≡ some (a, (authorized db committed o (some run) s).1))
  unfolding authorized validated
  authorized-created none run s h = absurd (omega (arith, h))
  authorized-created (some false) run s h = absurd (omega (arith, h))
  authorized-created (some true) run s h = elim (Bool-cases (valid_run run)) [
    | inl e ↦ rw e (ingested-created s (ingest_run db run s) (rw e at h))
    | inr e ↦ absurd (omega (arith, rw e at h))
  ]

  pub post_run-created :
      (api_token : Str) (credentials : Option Str) (body : Body Float64) (run : RunIn Float64)
      (s : State)
      → body ≡ json (some run)
      → (post_run db committed api_token credentials body s).0.status ≡ 201
      → (a : RunAccepted) × (ingest_run db run s
          ≡ some (a, (post_run db committed api_token credentials body s).1))
  unfolding post_run
  post_run-created api_token credentials body run s e h =
      rw e (authorized-created (token_ok api_token credentials) run s (rw e at h))
