-- ===== src/Store/Races.antt =====
-- Requests to POST /v1/runs of probestore that overlap (probestore/app/routers/ingest.py): between the
-- lookup of a run and its insertion, others may be committed. The identifier of a run is unique
-- (models.py), so that an insertion under one that is there by then raises an IntegrityError.
mod Tests
use mathlib.Core.Option
use mathlib.Core.Path.{subst}
use tunnel_ops.Base.{
  ℕ, Str, Bool, true, false, List, [], ◌∷◌, Option, none, some, Option-cases, Bool-cases,
  if◌then◌else◌, ◌≡◌, refl, sym, ap, ◌∙◌, ◌≢◌, ◌⊎◌, inl, inr,
}
use tunnel_ops.Store.{
  Transaction, committed, rolled_back, unconfirmed, replied_by, RunIn, Body, undecodable, malformed,
  json, RunAccepted, Database, Reply, refusal, run_accepted, new_run, ingest_run, found_run,
  ingested, valid_run, token_ok, post_run, validated, authorized,
}
use tunnel_ops.Store.Documents.{Documented}
use tunnel_ops.Store.Ledger.{Ledger, Posted, run_of, ledger_post, StandsFor, post-Agrees}

module _ {Float64 : Type 0} (db : Database Float64) where
  open db use {State, find_run, count_results}

  inserted : RunIn Float64 → State → Option ℕ → Option (RunAccepted × State)
  inserted run s (some id) = none
  inserted run s none = new_run db run s

  -- `ingest_run` with what the lookup found; `none` is an exception.
  looked_up : RunIn Float64 → State → Option ℕ → Option (RunAccepted × State)
  unfolding inserted
  looked_up run s (some id) = some (run_accepted run.run_id (count_results id s) true, s)
  looked_up run s none = inserted run s (find_run run.run_id s)

  raced_run : Transaction → Option (RunIn Float64) → State → State → Reply × State
  unfolding looked_up
  raced_run carried none s₁ s = (refusal 422, s)
  raced_run carried (some run) s₁ s =
      if valid_run run
      then replied_by db carried s (looked_up run s (find_run run.run_id s₁))
      else (refusal 422, s)

  permitted_run : Transaction → Option Bool → Option (RunIn Float64) → State → State → Reply × State
  unfolding raced_run
  permitted_run carried none run s₁ s = (refusal 500, s)
  permitted_run carried (some false) run s₁ s = (refusal 401, s)
  permitted_run carried (some true) run s₁ s = raced_run carried run s₁ s

  -- A request whose lookup is in one database and whose insertion is in a later one. What it does
  -- behind the lookup is seen by others at its commit; it may also be rolled back, as in a deadlock
  -- of two upserts.
  pub post_between : Str → Posted Float64 → State → State → Reply × State
  unfolding permitted_run
  post_between api_token (carried, credentials, undecodable) s₁ s = (refusal 400, s)
  post_between api_token (carried, credentials, malformed) s₁ s = (refusal 422, s)
  post_between api_token (carried, credentials, json run) s₁ s =
      permitted_run carried (token_ok api_token credentials) run s₁ s

  -- What was found in the one database is found in the other.
  abbrev pub Earlier : State → State → Type 0
  Earlier s₁ s = (k : Str) (i : ℕ) → find_run k s₁ ≡ some i → find_run k s ≡ some i

  -- The requests in the order of their commits, with the replies. The lookup of each is in an
  -- earlier database, or in that of its commit.
  pub data Course (api_token : Str)
      : List (Posted Float64) → State → List Reply → State → Type 0 where
    ended : {s : State} → Course api_token [] s [] s
    served :
        {q : Posted Float64} {qs : List (Posted Float64)} {s s₂ s' : State} {reply : Reply}
        {replies : List Reply} (s₁ : State)
        → Earlier s₁ s
        → post_between api_token q s₁ s ≡ (reply, s₂)
        → Course api_token qs s₂ replies s'
        → Course api_token (q ∷ qs) s (reply ∷ replies) s'

module _ {Float64 : Type 0} where
  abbrev pub EnteredRun : Option (RunIn Float64) → Ledger → Type 0
  EnteredRun none l = ⊥
  EnteredRun (some run) l = l run.run_id ≢ none

  abbrev pub Entered : Posted Float64 → Ledger → Type 0
  Entered (carried, credentials, body) l = EnteredRun (run_of body) l

  -- The ledger's replies, but that a run which is entered already may be refused with a 500.
  pub data LedgerCourse (api_token : Str)
      : List (Posted Float64) → Ledger → List Reply → Ledger → Type 0 where
    ended : {l : Ledger} → LedgerCourse api_token [] l [] l
    answered :
        {q : Posted Float64} {qs : List (Posted Float64)} {l l₁ l' : Ledger} {reply : Reply}
        {replies : List Reply}
        → ledger_post api_token q l ≡ (reply, l₁)
        → LedgerCourse api_token qs l₁ replies l'
        → LedgerCourse api_token (q ∷ qs) l (reply ∷ replies) l'
    raced :
        {q : Posted Float64} {qs : List (Posted Float64)} {l l' : Ledger} {reply : Reply}
        {replies : List Reply}
        → reply ≡ refusal 500
        → Entered q l
        → LedgerCourse api_token qs l replies l'
        → LedgerCourse api_token (q ∷ qs) l (reply ∷ replies) l'

module _ {Float64 : Type 0} (db : Database Float64) (doc : Documented db) where
  open db use {State, find_run, count_results}

  -- Either nothing else came between, or the run was inserted meanwhile.
  abbrev AsAlone : Option (RunIn Float64) → State → Reply × State → Reply × State → Type 0
  AsAlone none s o alone = o ≡ alone
  AsAlone (some run) s o alone =
      (o ≡ alone) ⊎ ((o ≡ (refusal 500, s)) × (find_run run.run_id s ≢ none))

  looked_up-AsAlone :
      (run : RunIn Float64) (s₁ s : State)
      → Earlier db s₁ s
      → (looked_up db run s (find_run run.run_id s₁) ≡ ingest_run db run s)
        ⊎ ((looked_up db run s (find_run run.run_id s₁) ≡ none) × (find_run run.run_id s ≢ none))
  unfolding looked_up inserted ingest_run found_run
  looked_up-AsAlone run s₁ s earlier = elim (Option-cases (find_run run.run_id s₁)) [
    | inr (i, e) ↦ inl (rw (e, earlier run.run_id i e) refl)
    | inl e ↦ elim (Option-cases (find_run run.run_id s)) [
      | inl absent ↦ inl (rw (e, absent) refl)
      | inr (i, there) ↦ inr (rw (e, there) refl, λ h. cc)
    ]
  ]

  raced_run-AsAlone :
      (carried : Transaction) (run : Option (RunIn Float64)) (s₁ s : State)
      → Earlier db s₁ s
      → AsAlone run s (raced_run db carried run s₁ s) (validated db carried run s)
  unfolding raced_run validated ingested
  raced_run-AsAlone carried none s₁ s earlier = refl
  raced_run-AsAlone carried (some run) s₁ s earlier = elim (Bool-cases (valid_run run)) [
    | inr e ↦ rw e (inl refl)
    | inl e ↦ elim (looked_up-AsAlone run s₁ s earlier) [
      | inl same ↦ rw (e, same) (inl refl)
      | inr (lost, there) ↦ rw (e, lost) (inr (exception carried, there))
    ]
  ]
    where
      exception : (carried : Transaction) → replied_by db carried s none ≡ (refusal 500, s)
      exception committed = refl
      exception rolled_back = refl
      exception unconfirmed = refl

  permitted_run-AsAlone :
      (carried : Transaction) (o : Option Bool) (run : Option (RunIn Float64)) (s₁ s : State)
      → Earlier db s₁ s
      → AsAlone run s (permitted_run db carried o run s₁ s) (authorized db carried o run s)
  unfolding permitted_run authorized
  permitted_run-AsAlone carried (some true) run s₁ s earlier =
      raced_run-AsAlone carried run s₁ s earlier
  permitted_run-AsAlone carried none none s₁ s earlier = refl
  permitted_run-AsAlone carried none (some run) s₁ s earlier = inl refl
  permitted_run-AsAlone carried (some false) none s₁ s earlier = refl
  permitted_run-AsAlone carried (some false) (some run) s₁ s earlier = inl refl

  -- A step of the ledger for a request, and a database that stands for what is behind it.
  abbrev Kept : Str → Posted Float64 → Ledger → Reply × State → Type 0
  Kept api_token q l o =
      ((l₁ : Ledger) × (ledger_post api_token q l ≡ (o.0, l₁)) × StandsFor db doc o.1 l₁)
      ⊎ ((o.0 ≡ refusal 500) × Entered q l × StandsFor db doc o.1 l)

  alone-Kept :
      (api_token : Str) (carried : Transaction) (credentials : Option Str) (body : Body Float64)
      (s : State) (l : Ledger) (o : Reply × State)
      → StandsFor db doc s l
      → o ≡ post_run db carried api_token credentials body s
      → Kept api_token (carried, credentials, body) l o
  alone-Kept api_token carried credentials body s l o h e =
      let (same, holds) = post-Agrees db doc api_token carried credentials body s l h in
      let l₁ = (ledger_post api_token (carried, credentials, body) l).1 in
      inl (
        l₁,
        (λ i. (sym (ap (λ x. x.0) e ∙ same) i, l₁)),
        subst (λ t. StandsFor db doc t l₁) (sym (ap (λ x. x.1) e)) holds,
      )

  post_between-Kept :
      (api_token : Str) (q : Posted Float64) (s₁ s : State) (l : Ledger) (o : Reply × State)
      → Earlier db s₁ s
      → StandsFor db doc s l
      → post_between db api_token q s₁ s ≡ o
      → Kept api_token q l o
  unfolding post_between post_run
  post_between-Kept api_token (carried, credentials, undecodable) s₁ s l o earlier h e =
      alone-Kept api_token carried credentials undecodable s l o h (sym e)
  post_between-Kept api_token (carried, credentials, malformed) s₁ s l o earlier h e =
      alone-Kept api_token carried credentials malformed s l o h (sym e)
  post_between-Kept api_token (carried, credentials, json none) s₁ s l o earlier h e =
      alone-Kept api_token carried credentials (json none) s l o h
        (sym e ∙ permitted_run-AsAlone carried (token_ok api_token credentials) none s₁ s earlier)
  post_between-Kept api_token (carried, credentials, json (some run)) s₁ s l o earlier h e =
      elim (permitted_run-AsAlone carried (token_ok api_token credentials) (some run) s₁ s
        earlier) [
          | inl same ↦
              alone-Kept api_token carried credentials (json (some run)) s l o h (sym e ∙ same)
          | inr (lost, there) ↦ inr (
            ap (λ x. x.0) (sym e ∙ lost),
            (λ absent. there (unmapped (find_run run.run_id s) (h run.run_id ∙ absent))),
            subst (λ t. StandsFor db doc t l) (sym (ap (λ x. x.1) (sym e ∙ lost))) h,
          )
        ]
    where
      unmapped : (o' : Option ℕ) → Option.map (λ i. count_results i s) o' ≡ none → o' ≡ none
      unmapped none h' = refl
      unmapped (some i) h' = cc

  -- Overlapping requests keep the ledger. However the lookups of some requests lie behind their
  -- commits, each request is answered as the ledger says, which is a 500 too where its statements are
  -- rolled back or not confirmed; or else with a 500 that changes nothing, and that only where its run is entered
  -- already. The database stands for the ledger behind them. So no run is stored twice, and none that
  -- was accepted is lost.
  pub Course-LedgerCourse :
      (api_token : Str) (qs : List (Posted Float64)) (s s' : State) (replies : List Reply)
      (l : Ledger)
      → StandsFor db doc s l
      → Course db api_token qs s replies s'
      → (l' : Ledger) × LedgerCourse api_token qs l replies l' × StandsFor db doc s' l'
  Course-LedgerCourse api_token qs s s' replies l h ended = (l, ended, h)
  Course-LedgerCourse api_token (q ∷ qs) s s' (reply ∷ replies) l h
        (served {s₂} s₁ earlier e course) =
      elim (post_between-Kept api_token q s₁ s l (reply, s₂) earlier h e) [
        | inl (l₁, step, holds) ↦
            let (l', steps, kept) =
              Course-LedgerCourse api_token qs s₂ s' replies l₁ holds course in
            (l', answered step steps, kept)
        | inr (failed, there, holds) ↦
            let (l', steps, kept) = Course-LedgerCourse api_token qs s₂ s' replies l holds course in
            (l', raced failed there steps, kept)
      ]
