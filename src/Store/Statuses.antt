-- ===== src/Store/Statuses.antt =====
-- Which requests POST /v1/runs of probestore accepts (probestore/app/routers/ingest.py, schemas.py).
use mathlib.Core.Path.{subst}
use tunnel_ops.Base.{
  ℕ, ◌≤◌, Str, str_eq, str_eq_iff, true, false, Option, none, some, Bool-cases, some-eq, ◌≡◌, refl,
  sym, ap, ◌≢◌, ◌⊎◌, inl, inr, ◌↔◌, arith,
}
use tunnel_ops.Store.{
  RunIn, Body, undecodable, malformed, json, Transaction, committed, rolled_back, unconfirmed,
  replied_by, ingest_run, refusal, Database, Reply, ingested, validated, valid_run, is_ascii,
  token_ok, compare_digest, authorized, post_run,
}
use tunnel_ops.Store.Documents.{Documented}
use tunnel_ops.Store.Replays.{ingest_run-total}
use tunnel_ops.Store.Fits.{RunFits, valid_run_iff}

-- The request's token cannot be compared with the service's: one of them is not ASCII.
abbrev pub Incomparable : Str → Option Str → Type 0
Incomparable api_token none = ⊥
Incomparable api_token (some c) = (is_ascii c ≡ false) ⊎ (is_ascii api_token ≡ false)

compare_digest-cases :
    (c t : Str)
    → ((is_ascii c ≡ true) × (is_ascii t ≡ true) × (compare_digest c t ≡ some (str_eq c t)))
      ⊎ (Incomparable t (some c) × (compare_digest c t ≡ none))
unfolding compare_digest
compare_digest-cases c t = elim (Bool-cases (is_ascii c)) [
  | inr h ↦ inr (inl h, rw h refl)
  | inl h ↦ elim (Bool-cases (is_ascii t)) [
    | inr k ↦ inr (inr k, rw (h, k) refl)
    | inl k ↦ inl (h, k, rw (h, k) refl)
  ]
]

module _ {Float64 : Type 0} (db : Database Float64) (doc : Documented db) where
  open db use {State}

  -- A reply by 201; or by an error status with the database as it was, or with a commit that took
  -- effect without confirmation.
  abbrev pub CreatedOrRefused : Transaction → State → Reply × State → Type 0
  CreatedOrRefused carried s o =
      (o.0.status ≡ 201)
      ⊎ ((400 ≤ o.0.status)
          × (o.0.status ≤ 500)
          × ((o.1 ≡ s) ⊎ ((carried ≡ unconfirmed) × (o.0.status ≡ 500))))

  -- A body that fits the schema.
  abbrev pub FitsSchema : Option (RunIn Float64) → Type 0
  FitsSchema run = (r : RunIn Float64) × (run ≡ some r) × RunFits r

  abbrev pub Fits : Body Float64 → Type 0
  Fits undecodable = ⊥
  Fits malformed = ⊥
  Fits (json run) = FitsSchema run

  -- The statuses of a run that fits the schema, from what its statements come to.
  fitting_iff :
      (carried : Transaction) (run : RunIn Float64) (s : State)
      → let o = replied_by db carried s (ingest_run db run s) in
        ((o.0.status ≡ 201) ↔ (carried ≡ committed))
        × ((o.0.status ≡ 500) ↔ (carried ≢ committed))
        × CreatedOrRefused carried s o
  unfolding ingested
  fitting_iff committed run s =
      let (a, s', stored, named, later) = ingest_run-total db doc run s in
      rw stored (
        ((λ h. refl), λ h. refl),
        ((λ h. absurd (omega (arith, h))), λ h. absurd (h refl)),
        inl refl,
      )
  fitting_iff rolled_back run s = (
    ((λ h. absurd (omega (arith, h))), λ h. cc),
    ((λ h e. cc), λ h. refl),
    inr (omega arith, omega arith, inl refl),
  )
  fitting_iff unconfirmed run s = (
    ((λ h. absurd (omega (arith, h))), λ h. cc),
    ((λ h e. cc), λ h. refl),
    inr (omega arith, omega arith, inr (refl, refl)),
  )

  validated_iff :
      (carried : Transaction) (run : Option (RunIn Float64)) (s : State)
      → (((validated db carried run s).0.status ≡ 201) ↔ ((carried ≡ committed) × FitsSchema run))
        × (((validated db carried run s).0.status ≡ 500) ↔ ((carried ≢ committed) × FitsSchema run))
        × CreatedOrRefused carried s (validated db carried run s)
  unfolding validated
  validated_iff carried none s = (
    ((λ h. absurd (omega (arith, h))), λ (c, (r, e, fits)). cc),
    ((λ h. absurd (omega (arith, h))), λ (c, (r, e, fits)). cc),
    inr (omega arith, omega arith, inl refl),
  )
  validated_iff carried (some run) s = elim (Bool-cases (valid_run run)) [
    | inl e ↦
        let (created, failed, otherwise) = fitting_iff carried run s in
        let fits : FitsSchema (some run) = (run, refl, (valid_run_iff run).0 e) in
        rw e (
          ((λ h. (created.0 h, fits)), λ h. created.1 h.0),
          ((λ h. (failed.0 h, fits)), λ h. failed.1 h.0),
          otherwise,
        )
    | inr e ↦ rw e (
      ((λ h. absurd (omega (arith, h))), λ h. unfit e h.1),
      ((λ h. absurd (omega (arith, h))), λ h. unfit e h.1),
      inr (omega arith, omega arith, inl refl),
    )
  ]
    where
      unfit : {B : Type 0} → valid_run run ≡ false → FitsSchema (some run) → B
      unfit e (r, k, fits) =
          let valid = (valid_run_iff run).1 (subst RunFits (sym (some-eq k)) fits) in
          absurd (ground (arith, e, valid))

  -- A body that is JSON, with credentials that cannot be compared, or that are the token and come
  -- with a run that is not committed and confirmed.
  abbrev pub Fails : Transaction → Str → Option Str → Body Float64 → Type 0
  Fails carried api_token credentials undecodable = ⊥
  Fails carried api_token credentials malformed = ⊥
  Fails carried api_token credentials (json run) =
      Incomparable api_token credentials
      ⊎ ((carried ≢ committed)
          × (credentials ≡ some api_token)
          × (is_ascii api_token ≡ true)
          × FitsSchema run)

  abbrev pub Answered :
      Transaction → Str → Option Str → Body Float64 → State → Reply × State → Type 0
  Answered carried api_token credentials body s o =
      ((o.0.status ≡ 201) ↔ (
        (carried ≡ committed)
        × (credentials ≡ some api_token)
        × (is_ascii api_token ≡ true)
        × Fits body))
      × ((o.0.status ≡ 500) ↔ Fails carried api_token credentials body)
      × CreatedOrRefused carried s o

  compared :
      (carried : Transaction) (api_token c : Str) (run : Option (RunIn Float64)) (s : State)
      → is_ascii c ≡ true
      → is_ascii api_token ≡ true
      → Answered carried api_token
          (some c)
          (json run)
          s
          (authorized db carried (some (str_eq c api_token)) run s)
  unfolding authorized
  compared carried api_token c run s h k = elim (Bool-cases (str_eq c api_token)) [
    | inl e ↦
        let (created, failed, otherwise) = validated_iff carried run s in
        let same = ap some ((str_eq_iff c api_token).0 e) in
        rw e (
          ((λ h'. ((created.0 h').0, same, k, (created.0 h').1)), λ h'. created.1 (h'.0, h'.3)),
          (
            (λ h'. inr ((failed.0 h').0, same, k, (failed.0 h').1)),
            λ h'. failed.1 ((failing h').0, (failing h').2),
          ),
          otherwise,
        )
    | inr e ↦ rw e (
      ((λ h'. absurd (omega (arith, h'))), λ h'. absurd (differs e (some-eq h'.1))),
      ((λ h'. absurd (omega (arith, h'))), λ h'. absurd (differs e (some-eq (failing h').1))),
      inr (omega arith, omega arith, inl refl),
    )
  ]
    where
      differs : str_eq c api_token ≡ false → c ≡ api_token → ⊥
      differs e same = ground (arith, e, (str_eq_iff c api_token).1 same)

      failing :
          Fails carried api_token (some c) (json run)
          → (carried ≢ committed) × (some c ≡ some api_token) × FitsSchema run
      failing (inl (inl h')) = absurd (ground (arith, h, h'))
      failing (inl (inr h')) = absurd (ground (arith, k, h'))
      failing (inr (down, same, plain, fits)) = (down, same, fits)

  uncompared :
      (carried : Transaction) (api_token c : Str) (run : Option (RunIn Float64)) (s : State)
      → Incomparable api_token (some c)
      → Answered carried api_token (some c) (json run) s (authorized db carried none run s)
  unfolding authorized
  uncompared carried api_token c run s h = (
    ((λ h'. absurd (omega (arith, h'))), λ h'. absurd (apart h h'.1 h'.2)),
    ((λ h'. inl h), λ h'. refl),
    inr (omega arith, omega arith, inl refl),
  )
    where
      apart :
          Incomparable api_token (some c) → some c ≡ some api_token → is_ascii api_token ≡ true → ⊥
      apart (inr e) same k = ground (arith, e, k)
      apart (inl e) same k = ground (arith, rw (some-eq same) at e, k)

  unauthorized :
      (carried : Transaction) (api_token : Str) (run : Option (RunIn Float64)) (s : State)
      → Answered carried api_token none (json run) s (refusal 401, s)
  unauthorized carried api_token run s = (
    ((λ h. absurd (omega (arith, h))), λ h. cc),
    ((λ h. absurd (omega (arith, h))), unsent),
    inr (omega arith, omega arith, inl refl),
  )
    where
      unsent : Fails carried api_token none (json run) → ◌≡◌ {A = ℕ} 401 500
      unsent (inl h) = absurd h
      unsent (inr (down, same, plain, fits)) = cc

  -- A request is answered by 201 exactly where its body is JSON that fits the schema, it has the
  -- token, which is ASCII, and its statements are committed and confirmed. It is answered by 500 exactly where its
  -- body is JSON and either it has credentials, and they or the service's token are not ASCII, or
  -- all is as for 201 but that its statements are rolled back or the commit is not confirmed. Any
  -- other is answered by a 4xx status. What is not answered by 201 leaves the database as it was,
  -- except for a 500 behind a commit that is not confirmed.
  pub post_run-created_iff :
      (carried : Transaction) (api_token : Str) (credentials : Option Str) (body : Body Float64)
      (s : State)
      → Answered carried api_token credentials body s
          (post_run db carried api_token credentials body s)
  unfolding post_run token_ok authorized
  post_run-created_iff carried api_token credentials undecodable s = (
    ((λ h. absurd (omega (arith, h))), λ h. absurd h.3),
    ((λ h. absurd (omega (arith, h))), λ h. absurd h),
    inr (omega arith, omega arith, inl refl),
  )
  post_run-created_iff carried api_token credentials malformed s = (
    ((λ h. absurd (omega (arith, h))), λ h. absurd h.3),
    ((λ h. absurd (omega (arith, h))), λ h. absurd h),
    inr (omega arith, omega arith, inl refl),
  )
  post_run-created_iff carried api_token none (json run) s = unauthorized carried api_token run s
  post_run-created_iff carried api_token (some c) (json run) s =
      elim (compare_digest-cases c api_token) [
        | inl (h, k, e) ↦ rw e (compared carried api_token c run s h k)
        | inr (h, e) ↦ rw e (uncompared carried api_token c run s h)
      ]
