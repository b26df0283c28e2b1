-- ===== src/Command/Fleet.antt =====
-- What `main` of cmd/nodecheck/main.go pushes, by the probers that the targets ask for.
use tunnel_ops.Base.{
  ℕ, Str, Bool, true, false, List, [], ◌∷◌, length, count_where, count_where-Perm, some, ◌≡◌, refl,
  ◌∙◌, ◌≢◌, inl, inr, arith, ok,
}
use tunnel_ops.Target.{Floating, Target, Result}
use tunnel_ops.Prober.{Runtime}
use tunnel_ops.Prober.Laws.{built_in}
use tunnel_ops.Prober.Phases.{asks_tls, probe-legacy}
use tunnel_ops.RunAll.Results.{Each}
use tunnel_ops.RunAll.Probes.{Probed}
use tunnel_ops.Push.{PushPayload, PushResult, pushable, build_payload}
use tunnel_ops.Push.Laws.{Ships, nothing, shipped, left_out, left_out_lem, built-Ships}
use tunnel_ops.Push.Delivery.{Round, Answer, bad_request, no_response, response}
use tunnel_ops.Push.Delivery.Laws.{Rejects, Accepts, MayRecover}
use tunnel_ops.Command.{Flags, World}
use tunnel_ops.Command.Stages.{loading, reported, Stored}
use tunnel_ops.Command.Laws.{Permutes, EndsWith, Printed, main-code_iff}
use tunnel_ops.Command.Reports.{RunsAll, reported-made}

module _ (fl : Floating) where
  open fl use {Float64}

  pub pushable_lem :
      (r : Result Float64) (a b : Bool)
      → r.tcp_ok ≡ some a
      → r.tls_ok ≡ some b
      → pushable fl r ≡ true
  unfolding pushable
  pushable_lem r a b h k = rw (h, k) refl

  pub Ships-length :
      {rs : List (Result Float64)} {prs : List (PushResult Float64)}
      → Ships fl rs prs
      → length prs ≡ count_where (pushable fl) rs
  Ships-length nothing = refl
  Ships-length (shipped {r} {pr} carries ships) =
      let fits = pushable_lem r pr.tcp_ok pr.tls_ok carries.6 carries.7 in
      ground (arith, Ships-length ships)
  Ships-length (left_out {r} missing ships) =
      let unfit = left_out_lem fl r missing in ground (arith, Ships-length ships)

module _ (rt : Runtime) where
  open rt use {floating}
  open floating use {Float64}

  Probed-pushable :
      (timeout : ℕ) (t : Target) (r : Result Float64)
      → Probed rt built_in timeout t r
      → pushable floating r ≡ asks_tls rt t
  unfolding pushable
  Probed-pushable timeout t r (env, finished, q, probed, e) =
      let (legacy, alone) = probe-legacy rt t env timeout q probed in
      rw (e, legacy.0, legacy.1) (ground arith)

  Each-pushable :
      (timeout : ℕ) (ts : List Target) (rs : List (Result Float64))
      → Each (Result Float64) (Probed rt built_in timeout) ts rs
      → count_where (pushable floating) rs ≡ count_where (asks_tls rt) ts
  Each-pushable timeout [] [] h = refl
  Each-pushable timeout [] (r ∷ rs) h = absurd h
  Each-pushable timeout (t ∷ ts) [] h = absurd h
  Each-pushable timeout (t ∷ ts) (r ∷ rs) h =
      rw (Probed-pushable timeout t r h.0, Each-pushable timeout ts rs h.1) refl

module _ (rt : Runtime) (world : World rt) (flags : Flags) where
  open rt use {floating}
  open floating use {Float64}

  -- The batch that is pushed for a target list has one result for each target that asks for the TLS
  -- prober, and no other. This is at every run of `runAll` that closes its channel, and for each
  -- order that the results are brought into.
  pub payload-count :
      (ts : List Target) (id source : Str) (p : PushPayload Float64)
      → RunsAll rt world flags ts
      → Permutes rt world
      → build_payload floating id source world.now (reported rt world flags ts) ≡ some p
      → length p.results ≡ count_where (asks_tls rt) ts
  payload-count ts id source p ran permutes built =
      let ships = built-Ships floating id source world.now (reported rt world flags ts) p built in
      let (made, each, perm) = reported-made rt world flags permutes ts ran in
      Ships-length floating ships
      ∙ count_where-Perm (pushable floating) perm
      ∙ Each-pushable rt flags.timeout ts made each

  -- The store refuses a batch without results: probestore answers it by 422, since its schema asks
  -- for one result at least.
  abbrev pub RefusesEmpty : Type 0
  RefusesEmpty =
      (p : PushPayload Float64) (body : Str)
      → p.results ≡ []
      → world.marshal p ≡ ok body
      → Rejects (Round.answer (world.answers flags.push_timeout 0))

  Rejects-Accepts : (a : Answer) → Rejects a → Accepts a → ⊥
  Rejects-Accepts (bad_request e) h k = k
  Rejects-Accepts (no_response e) h k = k
  Rejects-Accepts (response code status body) h k = omega (arith, h, k)

  Rejects-MayRecover : (a : Answer) → Rejects a → MayRecover a → ⊥
  Rejects-MayRecover (bad_request e) h k = h
  Rejects-MayRecover (no_response e) h k = h
  Rejects-MayRecover (response code status body) h k = omega (arith, h, k)

  empty_lem : {A : Type 0} (xs : List A) → length xs ≡ 0 → xs ≡ []
  empty_lem [] h = refl
  empty_lem (x ∷ xs) h = absurd (omega (arith, h))

  -- A fleet without a target of the TLS prober cannot be pushed: if there is a URL to push to, and
  -- the store refuses a batch without results, then a process whose output was printed ends with
  -- exit code 3, whatever the probes found.
  pub main-without_tls :
      (ts : List Target)
      → flags.show_version ≡ false
      → loading rt world flags ≡ ok ts
      → RunsAll rt world flags ts
      → Permutes rt world
      → Printed rt world flags ts
      → count_where (asks_tls rt) ts ≡ 0
      → flags.push_url ≢ []
      → RefusesEmpty
      → EndsWith rt world flags 3
  main-without_tls ts runs loaded ran permutes printed none_tls given refuses =
      (main-code_iff rt world flags permutes 3).1 (runs, (ts, loaded, (printed, lost)))
    where
      lost : Stored rt world flags (reported rt world flags ts) → ⊥
      lost (inl e) = given e
      lost (inr (there, (id, made, (p, built, (body, marshalled, (waits, first)))))) =
          let count = payload-count ts id _ p ran permutes built in
          let bare : p.results ≡ [] = empty_lem p.results (count ∙ none_tls) in
          let refused = refuses p body bare marshalled in
          elim first [
            | inl accepted ↦ Rejects-Accepts _ refused accepted
            | inr later ↦ Rejects-MayRecover _ refused later.0
          ]
