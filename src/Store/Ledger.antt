-- ===== src/Store/Ledger.antt =====
-- What POST /v1/runs of probestore promises, as a ledger: each run is entered once, with the number
-- of its results. It knows of no nodes, rows or keys.
use tunnel_ops.Base.{
  not, ℕ, Bool, Str, str_eq, true, false, List, [], ◌∷◌, length, Option, none, some, Option-cases,
  Bool-cases, if◌then◌else◌, ◌≡◌, refl, sym, ap, ◌∙◌, inl, inr,
}
use mathlib.Core.Option
use tunnel_ops.Store.{
  Transaction, committed, rolled_back, unconfirmed, RunIn, Body, undecodable, malformed, json,
  is_ascii, compare_digest, RunAccepted, Database, Reply, refusal, run_accepted, ingest_run,
  ingested, validated, valid_run, token_ok, authorized, post_run,
}
use tunnel_ops.Store.Documents.{Documented}
use tunnel_ops.Store.Replays.{duplicate}
use tunnel_ops.Store.Laws.{Stored, ingest_run-Stored}

abbrev pub Ledger : Type 0
Ledger = Str → Option ℕ

abbrev pub enter : Str → ℕ → Ledger → Ledger
enter id n l k = if str_eq id k then some n else l k

abbrev created : RunAccepted → Reply
created a = record { status = 201; accepted = some a }

-- The reply to a run, by what is entered under its identifier.
abbrev entered : Str → ℕ → Ledger → Option ℕ → Reply × Ledger
entered id n l (some m) = (created (run_accepted id m true), l)
entered id n l none = (created (run_accepted id n false), enter id n l)

-- A request: what becomes of its statements in the database, the credentials of its header, and its body.
abbrev pub Posted : Type 0 → Type 0
Posted Float64 = Transaction × Option Str × Body Float64

-- The first status whose case is given.
abbrev pub first_of : List (Bool × ℕ) → Option ℕ
first_of [] = none
first_of ((given, status) ∷ cases) =
    let rest = first_of cases in if given then some status else rest

abbrev presents : (Str → Bool) → Option Str → Bool
presents test none = false
presents test (some credentials) = test credentials

module _ {Float64 : Type 0} where
  -- The run that a body comes to.
  abbrev pub run_of : Body Float64 → Option (RunIn Float64)
  run_of undecodable = none
  run_of malformed = none
  run_of (json run) = run

  abbrev is_undecodable : Body Float64 → Bool
  is_undecodable undecodable = true
  is_undecodable malformed = false
  is_undecodable (json run) = false

  abbrev is_malformed : Body Float64 → Bool
  is_malformed undecodable = false
  is_malformed malformed = true
  is_malformed (json run) = false

  abbrev fits : Option (RunIn Float64) → Bool
  fits none = false
  fits (some run) = valid_run run

  -- Why a request is refused: the first case that holds.
  abbrev pub refused : Str → Option Str → Body Float64 → Option ℕ
  refused api_token credentials body = first_of (
      (is_undecodable body, 400)
      ∷ (is_malformed body, 422)
      ∷ (not (presents (λ c. true) credentials), 401)
      ∷ (not (presents is_ascii credentials), 500)
      ∷ (not (is_ascii api_token), 500)
      ∷ (not (presents (λ c. str_eq c api_token) credentials), 401)
      ∷ (not (fits (run_of body)), 422)
      ∷ [])

  -- The reply to a request that is refused with a status, or else to its run.
  abbrev settled : Option ℕ → Transaction → Option (RunIn Float64) → Ledger → Reply × Ledger
  settled (some status) carried run l = (refusal status, l)
  settled none carried none l = (refusal 422, l)
  settled none committed (some run) l = entered run.run_id (length run.results) l (l run.run_id)
  settled none rolled_back (some run) l = (refusal 500, l)
  settled none unconfirmed (some run) l =
      (refusal 500, (entered run.run_id (length run.results) l (l run.run_id)).1)

  abbrev pub ledger_post : Str → Posted Float64 → Ledger → Reply × Ledger
  ledger_post api_token (carried, credentials, body) l =
      settled (refused api_token credentials body) carried (run_of body) l

  -- The replies to some requests, one after the other, and what is entered behind them.
  abbrev pub ledger_posts : Str → List (Posted Float64) → Ledger → List Reply × Ledger
  ledger_posts api_token [] l = ([], l)
  ledger_posts api_token (q ∷ qs) l =
      let (reply, l₁) = ledger_post api_token q l in
      let (replies, l₂) = ledger_posts api_token qs l₁ in (reply ∷ replies, l₂)

module _ {Float64 : Type 0} (db : Database Float64) (doc : Documented db) where
  open db use {State, find_run, count_results}

  abbrev pub posts : Str → List (Posted Float64) → State → List Reply × State
  posts api_token [] s = ([], s)
  posts api_token ((carried, credentials, body) ∷ qs) s =
      let (reply, s₁) = post_run db carried api_token credentials body s in
      let (replies, s₂) = posts api_token qs s₁ in (reply ∷ replies, s₂)

  -- A database stands for a ledger: under each identifier it has as many results.
  abbrev pub StandsFor : State → Ledger → Type 0
  StandsFor s l = (k : Str) → Option.map (λ i. count_results i s) (find_run k s) ≡ l k

  -- Equal replies, and databases that stand for the ledgers behind them.
  abbrev pub Agrees : Reply × State → Reply × Ledger → Type 0
  Agrees (reply, s) (reply', l) = (reply ≡ reply') × StandsFor s l

  Stored-StandsFor :
      (run : RunIn Float64) (s s' : State) (l : Ledger)
      → StandsFor s l
      → Stored db doc run s s'
      → StandsFor s' (enter run.run_id (length run.results) l)
  Stored-StandsFor run s s' l h stored k = elim (Bool-cases (str_eq run.run_id k)) [
    | inl e ↦ rw (stored.lookups k, e) (ap some stored.counted)
    | inr e ↦ elim (Option-cases (find_run k s)) [
      | inl absent ↦ rw (stored.lookups k, e, absent) (rw absent at (h k))
      | inr (j, there) ↦
          let (held, count) = stored.kept_runs k j there in
          rw (held, e) (ap some count ∙ rw there at (h k))
    ]
  ]

  ingested-Agrees :
      (run : RunIn Float64) (s : State) (l : Ledger)
      → StandsFor s l
      → Agrees
          (ingested db s (ingest_run db run s))
          (entered run.run_id (length run.results) l (l run.run_id))
  unfolding ingested
  ingested-Agrees run s l h = elim (Option-cases (find_run run.run_id s)) [
    | inr (id, there) ↦
        let known : l run.run_id ≡ some (count_results id s) =
          sym (h run.run_id) ∙ ap (Option.map (λ i. count_results i s)) there in
        rw (duplicate db doc run s id there, known) (refl, h)
    | inl new ↦
        let (s', done, stored) = ingest_run-Stored db doc run s new in
        let absent : l run.run_id ≡ none =
          sym (h run.run_id) ∙ ap (Option.map (λ i. count_results i s)) new in
        rw (done, absent) (refl, Stored-StandsFor run s s' l h stored)
  ]

  -- Behind the token.
  validated-Agrees :
      (carried : Transaction) (run : Option (RunIn Float64)) (s : State) (l : Ledger)
      → StandsFor s l
      → Agrees
          (validated db carried run s)
          (settled (first_of ((not (fits run), 422) ∷ [])) carried run l)
  unfolding validated
  validated-Agrees carried none s l h = (refl, h)
  validated-Agrees committed (some run) s l h = elim (Bool-cases (valid_run run)) [
    | inr k ↦ rw k (refl, h)
    | inl k ↦ rw k (ingested-Agrees run s l h)
  ]
  validated-Agrees rolled_back (some run) s l h = elim (Bool-cases (valid_run run)) [
    | inr k ↦ rw k (refl, h)
    | inl k ↦ rw k (refl, h)
  ]
  validated-Agrees unconfirmed (some run) s l h = elim (Bool-cases (valid_run run)) [
    | inr k ↦ rw k (refl, h)
    | inl k ↦ rw k (refl, (ingested-Agrees run s l h).1)
  ]

  pub post-Agrees :
      (api_token : Str) (carried : Transaction) (credentials : Option Str) (body : Body Float64)
      (s : State) (l : Ledger)
      → StandsFor s l
      → Agrees
          (post_run db carried api_token credentials body s)
          (ledger_post api_token (carried, credentials, body) l)
  unfolding post_run token_ok compare_digest authorized
  post-Agrees api_token carried credentials undecodable s l h = (refl, h)
  post-Agrees api_token carried credentials malformed s l h = (refl, h)
  post-Agrees api_token carried none (json run) s l h = (refl, h)
  post-Agrees api_token carried (some c) (json run) s l h = elim (Bool-cases (is_ascii c)) [
    | inr e ↦ rw e (refl, h)
    | inl e ↦ elim (Bool-cases (is_ascii api_token)) [
      | inr k ↦ rw (e, k) (refl, h)
      | inl k ↦ elim (Bool-cases (str_eq c api_token)) [
        | inr differs ↦ rw (e, k, differs) (refl, h)
        | inl same ↦ rw (e, k, same) (validated-Agrees carried run s l h)
      ]
    ]
  ]

  -- The store keeps the ledger: whatever requests are posted, in whatever order, repeated or not,
  -- committed, rolled back or unconfirmed, each is answered as the ledger says, and the database behind them has a run
  -- exactly where it is entered, with as many results. This is from any database that stands for a
  -- ledger, such as an empty one for the empty ledger.
  pub posts-ledger_posts :
      (api_token : Str) (qs : List (Posted Float64)) (s : State) (l : Ledger)
      → StandsFor s l
      → ((posts api_token qs s).0 ≡ (ledger_posts api_token qs l).0)
        × StandsFor (posts api_token qs s).1 (ledger_posts api_token qs l).1
  posts-ledger_posts api_token [] s l h = (refl, h)
  posts-ledger_posts api_token ((carried, credentials, body) ∷ qs) s l h =
      let (same, holds) = post-Agrees api_token carried credentials body s l h in
      let (later, kept) = posts-ledger_posts api_token qs _ _ holds in
      ((λ i. same i ∷ later i), kept)
