-- ===== src/Push/Laws.antt =====
-- What `buildPayload` of cmd/nodecheck/push.go keeps of the results, and what a push says of a node
-- that the TLS prober looked at.
use mathlib.Core.Option
use mathlib.Core.Path.{subst}
use tunnel_ops.Base.{
  ℕ, Str, str_eq, Bool, true, false, List, [], ◌∷◌, Option, none, some, ◌≡◌, refl, ◌⊎◌, inl, inr,
  ◌↔◌, arith, Option-cases, Bool-cases, codes, All, some-eq, sym, ◌∙◌,
}
use tunnel_ops.Target.{Floating, Target, Result}
use tunnel_ops.Outcome.{to_result}
use tunnel_ops.Outcome.Expected.{expected}
use tunnel_ops.Outcome.Laws.{expected_of_to_result}
use tunnel_ops.Tls.{
  TlsEnv, TlsDial, dial_error, other_conn, tls_conn, handshake, connect, effective_sni, probe_tls,
}
use tunnel_ops.Push.{
  absent_or_false, PushResult, PushPayload, failed_phase, latency, carried, pushable, push_result,
  push_all, build_payload,
}

-- What a stored result may name as the phase that failed.
abbrev pub NamesPhase : Str → Type 0
NamesPhase s = (s ≡ []) ⊎ (s ≡ codes "tcp") ⊎ (s ≡ codes "tls")

module _ (fl : Floating) where
  open fl use {Float64, times_1000}

  -- The latency that is stored: the time of a handshake that succeeded and was measured.
  abbrev pub Latency : Bool → Option Float64 → Option Float64 → Type 0
  Latency true time ms = ms ≡ Option.map times_1000 time
  Latency false time ms = ms ≡ none

  -- A stored result tells what the probe's result told.
  abbrev pub Carries : Result Float64 → PushResult Float64 → Type 0
  Carries r pr =
      (pr.node.name ≡ r.name)
      × (pr.node.addr ≡ r.addr)
      × (pr.node.sni ≡ r.sni)
      × (pr.node.provider ≡ r.provider)
      × (pr.ts ≡ r.timestamp)
      × (pr.error ≡ r.error)
      × (r.tcp_ok ≡ some pr.tcp_ok)
      × (r.tls_ok ≡ some pr.tls_ok)
      × Latency pr.tls_ok r.tls_time pr.latency_ms
      × ((pr.failed_phase ≡ []) ↔ ((pr.tcp_ok ≡ true) × (pr.tls_ok ≡ true)))
      × NamesPhase pr.failed_phase

  -- The stored results are those that have both phases, in the same order.
  pub data Ships : List (Result Float64) → List (PushResult Float64) → Type 0 where
    nothing : Ships [] []
    shipped :
        {r : Result Float64} {pr : PushResult Float64} {rs : List (Result Float64)}
        {prs : List (PushResult Float64)}
        → Carries r pr
        → Ships rs prs
        → Ships (r ∷ rs) (pr ∷ prs)
    left_out :
        {r : Result Float64} {rs : List (Result Float64)} {prs : List (PushResult Float64)}
        → ((r.tcp_ok ≡ none) ⊎ (r.tls_ok ≡ none))
        → Ships rs prs
        → Ships (r ∷ rs) prs

  pub failed_phase_iff :
      (r : Result Float64) (a b : Bool)
      → r.tcp_ok ≡ some a
      → r.tls_ok ≡ some b
      → (failed_phase fl r ≡ []) ↔ ((a ≡ true) × (b ≡ true))
  unfolding failed_phase
  failed_phase_iff r true true h k = rw (h, k) (λ e. (refl, refl), λ e. refl)
  failed_phase_iff r true false h k = rw (h, k) (λ e. cc, λ e. cc)
  failed_phase_iff r false b h k = rw h (λ e. cc, λ e. cc)

  failed_phase-NamesPhase : (r : Result Float64) → NamesPhase (failed_phase fl r)
  unfolding failed_phase
  failed_phase-NamesPhase r = elim (Bool-cases (absent_or_false r.tcp_ok)) [
    | inl e ↦ rw e (inr (inl refl))
    | inr e ↦ elim (Bool-cases (absent_or_false r.tls_ok)) [
      | inl e' ↦ rw (e, e') (inr (inr refl))
      | inr e' ↦ rw (e, e') (inl refl)
    ]
  ]

  latency-Latency : (b : Bool) (time : Option Float64) → Latency b time (latency fl b time)
  latency-Latency true none = refl
  latency-Latency true (some x) = refl
  latency-Latency false none = refl
  latency-Latency false (some x) = refl

  push_result-Carries :
      (r : Result Float64) (a b : Bool)
      → r.tcp_ok ≡ some a
      → r.tls_ok ≡ some b
      → (pr : PushResult Float64) × (push_result fl r ≡ some pr) × Carries r pr
  unfolding push_result
  push_result-Carries r a b h k = (
    carried fl r a b,
    rw (h, k) refl,
    (
      refl,
      refl,
      refl,
      refl,
      refl,
      refl,
      h,
      k,
      latency-Latency b r.tls_time,
      failed_phase_iff r a b h k,
      failed_phase-NamesPhase r,
    ),
  )

  pub left_out_lem :
      (r : Result Float64) → ((r.tcp_ok ≡ none) ⊎ (r.tls_ok ≡ none)) → pushable fl r ≡ false
  unfolding pushable
  left_out_lem r (inl h) = rw h refl
  left_out_lem r (inr h) = ground (arith, h)

  push_all-Ships :
      (rs : List (Result Float64))
      → (prs : List (PushResult Float64)) × (push_all fl rs ≡ some prs) × Ships rs prs
  unfolding push_all
  push_all-Ships [] = ([], refl, nothing)
  push_all-Ships (r ∷ rs) =
      let (prs, pushed, ships) = push_all-Ships rs in
      elim (Option-cases r.tcp_ok) [
        | inl h ↦ (prs, rw (left_out_lem r (inl h)) pushed, left_out (inl h) ships)
        | inr (a, h) ↦ elim (Option-cases r.tls_ok) [
          | inl k ↦ (prs, rw (left_out_lem r (inr k)) pushed, left_out (inr k) ships)
          | inr (b, k) ↦
              let (pr, made, carries) = push_result-Carries r a b h k in
              let fits : pushable fl r ≡ true = unfold pushable in rw (h, k) refl in
              (pr ∷ prs, rw (fits, made, pushed) refl, shipped carries ships)
        ]
      ]

  -- `buildPayload` never dereferences a nil pointer. The payload has the run's identifier, source and
  -- start, and its results are, in the same order, those of the probes that measured both phases:
  -- each tells what the probe told, with a latency only where the handshake succeeded, and names no
  -- failed phase exactly where both phases passed, and otherwise "tcp" or "tls".
  pub build_payload-Ships :
      (run_id source : Str) (started_at : ℕ) (rs : List (Result Float64))
      → (p : PushPayload Float64) × (build_payload fl run_id source started_at rs ≡ some p)
        × (p.run_id ≡ run_id)
        × (p.source ≡ source)
        × (p.started_at ≡ started_at)
        × Ships rs p.results
  unfolding build_payload
  build_payload-Ships run_id source started_at rs =
      let (prs, pushed, ships) = push_all-Ships rs in
      let payload : PushPayload Float64 = record {
        run_id = run_id;
        source = source;
        started_at = started_at;
        results = prs;
      } in
      (payload, rw pushed refl, refl, refl, refl, ships)

  pub built-Ships :
      (run_id source : Str) (started_at : ℕ) (rs : List (Result Float64)) (p : PushPayload Float64)
      → build_payload fl run_id source started_at rs ≡ some p
      → Ships rs p.results
  built-Ships run_id source started_at rs p built =
      let (q, built', id_kept, source_kept, start_kept, ships) =
        build_payload-Ships run_id source started_at rs in
      subst (λ x. Ships rs (PushPayload.results x)) (some-eq (sym built' ∙ built)) ships

  pub Ships-NamesPhase :
      {rs : List (Result Float64)} {prs : List (PushResult Float64)}
      → Ships rs prs
      → All (λ pr. NamesPhase pr.failed_phase) prs
  Ships-NamesPhase nothing = tt
  Ships-NamesPhase (shipped carries ships) = (carries.10, Ships-NamesPhase ships)
  Ships-NamesPhase (left_out missing ships) = Ships-NamesPhase ships

  abbrev Told : Result Float64 → Type 0
  Told r = (pushable fl r ≡ true) × ((failed_phase fl r ≡ []) ↔ (r.ok ≡ true))

  connect-Told :
      (t : Target) (env : TlsEnv) (sni : Str) (e : Option Str)
      → Told (expected fl t (connect env sni e))
  unfolding connect str_eq pushable failed_phase
  connect-Told t env sni (some e) = (refl, (λ h. cc, λ h. cc))
  connect-Told t env sni none = dialled env.tls_dial
    where
      dialled : (d : TlsDial) → Told (expected fl t (handshake env sni d))
      dialled (dial_error e) = unfold handshake in (refl, (λ h. cc, λ h. cc))
      dialled other_conn = unfold handshake in (refl, (λ h. cc, λ h. cc))
      dialled (tls_conn state) = unfold handshake in (refl, (λ h. refl, λ h. refl))

  -- Every result of a TLS probe is pushed, and the push names a failed phase exactly where the
  -- result is not healthy.
  pub failed_phase-probe_tls :
      (t : Target) (env : TlsEnv) (r : Result Float64)
      → to_result fl t (probe_tls t env) ≡ some r
      → (pushable fl r ≡ true) × ((failed_phase fl r ≡ []) ↔ (r.ok ≡ true))
  unfolding probe_tls
  failed_phase-probe_tls t env r h =
      rw (← expected_of_to_result fl t (probe_tls t env) h)
        (connect-Told t env (effective_sni t env) env.tcp_error)
