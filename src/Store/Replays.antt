-- ===== src/Store/Replays.antt =====
-- Requests that arrive more than once at POST /v1/runs of probestore (probestore/app/routers), as
-- those of cmd/nodecheck/push.go may.
use tunnel_ops.Base.{
  ℕ, suc, Str, Bool, true, false, List, [], ◌∷◌, length, All, Option, none, some, Option-cases,
  some-eq, Bool-cases, if◌then◌else◌, ok, ◌≡◌, refl, sym, ap, ◌∙◌, ◌⊎◌, inl, inr,
}
use tunnel_ops.Push.Delivery.{Request, Round, request_of, push_results}
use tunnel_ops.Push.Delivery.Requests.{push_results-Repeats}
use tunnel_ops.Store.{
  committed, RunIn, Body, undecodable, malformed, json, RunAccepted, Database, Reply, ingest_run,
  found_run, run_accepted, ingested, validated, valid_run, token_ok, authorized, post_run,
}
use tunnel_ops.Store.Documents.{Documented}
use tunnel_ops.Store.Laws.{ingest_run-Stored}

module _ {Float64 : Type 0} (db : Database Float64) (doc : Documented db) where
  open db use {State, find_run, count_results}

  -- The same run again: the answer to a duplicate, and the same database.
  pub duplicate :
      (run : RunIn Float64) (s : State) (id : ℕ)
      → find_run run.run_id s ≡ some id
      → ingest_run db run s ≡ some (run_accepted run.run_id (count_results id s) true, s)
  unfolding ingest_run found_run
  duplicate run s id h = rw h refl

  -- What a run comes to is there, whether it was before or not.
  pub ingest_run-total :
      (run : RunIn Float64) (s : State)
      → (a : RunAccepted) × (s' : State) × (ingest_run db run s ≡ some (a, s'))
        × (a.run_id ≡ run.run_id)
        × (ingest_run db run s' ≡ some (run_accepted run.run_id a.stored_results true, s'))
  ingest_run-total run s = elim (Option-cases (find_run run.run_id s)) [
    | inr (id, h) ↦ (_, s, duplicate run s id h, refl, duplicate run s id h)
    | inl new ↦
        let (s', stored, holds) = ingest_run-Stored db doc run s new in
        (
          run_accepted run.run_id (length run.results) false,
          s',
          stored,
          refl,
          rw (← holds.counted) (duplicate run s' holds.id holds.found),
        )
  ]

  -- What a second request makes of the first one's reply and database.
  abbrev pub Settles : (State → Reply × State) → State → Type 0
  Settles post s =
      let (reply, s') = post s in
      let (reply', s'') = post s' in
      (s'' ≡ s')
      × (reply'.status ≡ reply.status)
      × ((a : RunAccepted)
          → reply.accepted ≡ some a
          → reply'.accepted ≡ some (run_accepted a.run_id a.stored_results true))

  same_answer :
      {k : Str} (a b : RunAccepted)
      → a ≡ b
      → a.run_id ≡ k
      → some (run_accepted k a.stored_results true)
        ≡ some (run_accepted b.run_id b.stored_results true)
  same_answer {k} a b e named =
      ap (λ j. some (run_accepted j a.stored_results true)) (sym named)
      ∙ ap (λ x. some (run_accepted x.run_id x.stored_results true)) e

  validated-Settles :
      (run : Option (RunIn Float64)) (s : State) → Settles (validated db committed run) s
  unfolding validated ingested
  validated-Settles none s = (refl, refl, λ a h. cc)
  validated-Settles (some run) s = elim (Bool-cases (valid_run run)) [
    | inr e ↦ rw e (refl, refl, λ a h. cc)
    | inl e ↦
        let (a, s', first, named, second) = ingest_run-total run s in
        rw (e, first, second) (refl, refl, λ b h. same_answer a b (some-eq h) named)
  ]

  authorized-Settles :
      (o : Option Bool) (run : Option (RunIn Float64)) (s : State)
      → Settles (authorized db committed o run) s
  unfolding authorized
  authorized-Settles none run s = (refl, refl, λ a h. cc)
  authorized-Settles (some false) run s = (refl, refl, λ a h. cc)
  authorized-Settles (some true) run s = validated-Settles run s

  -- A request that is carried out and repeated changes nothing more, and it is answered by the same status; where
  -- the first one was accepted, the second one is reported as a duplicate, with the same number of
  -- stored results.
  pub post_run-Settles :
      (api_token : Str) (credentials : Option Str) (body : Body Float64) (s : State)
      → Settles (post_run db committed api_token credentials body) s
  unfolding post_run
  post_run-Settles api_token credentials undecodable s = (refl, refl, λ a h. cc)
  post_run-Settles api_token credentials malformed s = (refl, refl, λ a h. cc)
  post_run-Settles api_token credentials (json run) s =
      authorized-Settles (token_ok api_token credentials) run s

  module _ (api_token : Str) (credentials_of : List (Str × Str) → Option Str)
      (decode : Str → Body Float64) where
    -- The requests that arrive and are carried out, one after the other.
    abbrev pub serve : Request → State → State
    serve q s = (post_run db committed api_token (credentials_of q.headers) (decode q.body) s).1

    abbrev pub serves : List Request → State → State
    serves [] s = s
    serves (q ∷ qs) s = serves qs (serve q s)

    -- The requests that arrive of those that were sent.
    abbrev pub arriving : (ℕ → Bool) → List Request → List Request
    arriving arrives [] = []
    arriving arrives (q ∷ qs) =
        let rest = arriving (λ i. arrives (suc i)) qs in if arrives 0 then q ∷ rest else rest

    serves-same :
        (arrives : ℕ → Bool) (q : Request) (qs : List Request) (s : State)
        → All (λ p. p ≡ q) qs
        → serve q s ≡ s
        → serves (arriving arrives qs) s ≡ s
    serves-same arrives q [] s h e = refl
    serves-same arrives q (p ∷ qs) s h e =
        let rest = serves-same (λ i. arrives (suc i)) q qs s h.1 e in
        elim (Bool-cases (arrives 0)) [ inl k ↦ rw (k, h.0, e) rest | inr k ↦ rw k rest ]

    serves-once :
        (arrives : ℕ → Bool) (q : Request) (qs : List Request) (s : State)
        → All (λ p. p ≡ q) qs
        → (serves (arriving arrives qs) s ≡ s) ⊎ (serves (arriving arrives qs) s ≡ serve q s)
    serves-once arrives q [] s h = inl refl
    serves-once arrives q (p ∷ qs) s h = elim (Bool-cases (arrives 0)) [
      | inr k ↦ rw k (serves-once (λ i. arrives (suc i)) q qs s h.1)
      | inl k ↦
          let settled =
            (post_run-Settles api_token (credentials_of q.headers) (decode q.body) s).0 in
          rw (k, h.0) (inr (serves-same (λ i. arrives (suc i)) q qs (serve q s) h.1 settled))
    ]

    -- A push is stored once at most: whatever part of its requests arrives at the store and is
    -- carried out there, the
    -- database is as it was, or as one request makes it.
    pub push_results-once :
        (trim_space : Str → Str) (url token body : Str) (rounds : ℕ → Round) (arrives : ℕ → Bool)
        (s : State)
        → let sent = (push_results trim_space url token (ok body) rounds).0 in
          (serves (arriving arrives sent) s ≡ s)
          ⊎ (serves (arriving arrives sent) s ≡ serve (request_of url token body) s)
    push_results-once trim_space url token body rounds arrives s =
        serves-once arrives (request_of url token body) _ s
          (push_results-Repeats trim_space url token body rounds).0
