-- ===== src/Prober/Laws.antt =====
-- What holds of a probe by any prober of cmd/nodecheck.
use tunnel_ops.Base.{
  ℕ, Str, str_eq, str_eq_iff, codes, true, [], ◌∷◌, ◌++◌, Option, none, some, ◌≡◌, refl, inl, inr,
  ◌↔◌, ◌∙◌, sym, arith, ok, Except-cases, some-eq,
}
use tunnel_ops.Target.{Floating, Target, Result, new_result}
use tunnel_ops.Outcome.{Outcome}
use tunnel_ops.Tls.{probe_tls}
use tunnel_ops.Tls.Laws.{probe_tls-claims}
use tunnel_ops.Udp.Laws.{probe_udp-Stops}
use tunnel_ops.WireGuard.{parse_wg_params}
use tunnel_ops.WireGuard.Laws.{is_anonymous, probe_wg-Stops}
use tunnel_ops.Outcome.Expected.{to_result-expected, expected}
use tunnel_ops.Prober.{
  or_default, Prober, tls, udp, wireguard, kind, Registry, lookup, probers, found, Runtime,
  ProbeEnv, prober_for, run_prober, probe_with, probe,
}

-- The registry that the `init` functions build.
abbrev pub built_in : Registry
built_in = (kind wireguard, wireguard) ∷ (kind udp, udp) ∷ (kind tls, tls) ∷ []

-- No `init` function panics.
pub probers_lem : probers ≡ some built_in
unfolding probers str_eq
probers_lem = refl

built_in_lem : (ps : Registry) → probers ≡ some ps → ps ≡ built_in
built_in_lem ps h = sym (some-eq (sym probers_lem ∙ h))

lookup_iff : (k : Str) (p : Prober) → (lookup k built_in ≡ some p) ↔ (k ≡ kind p)
unfolding lookup
lookup_iff k p = (forth, back p)
  where
    forth : lookup k built_in ≡ some p → k ≡ kind p
    forth h =
        ground
          (arith, str_eq_iff (kind wireguard) k, str_eq_iff (kind udp) k, str_eq_iff (kind tls) k)

    back : (p : Prober) → k ≡ kind p → lookup k built_in ≡ some p
    back tls e = rw e (unfold str_eq in refl)
    back udp e = rw e (unfold str_eq in refl)
    back wireguard e = rw e (unfold str_eq in refl)

found_iff : (o : Option Prober) (e : Str) (p : Prober) → (found o e ≡ ok p) ↔ (o ≡ some p)
unfolding found
found_iff none e p = (λ h. cc, λ h. cc)
found_iff (some q) e p = (λ h. cc, λ h. cc)

module _ (rt : Runtime) where
  open rt use {floating, setting}

  -- With the probers of the `init` functions, a target is resolved to a prober exactly when its
  -- `proto`, or "tls" where that is empty, is the prober's kind.
  pub prober_for_iff :
      (ps : Registry) (t : Target) (p : Prober)
      → probers ≡ some ps
      → (prober_for rt ps t ≡ ok p) ↔ (or_default t.proto ≡ kind p)
  unfolding prober_for
  prober_for_iff ps t p h = rw (built_in_lem ps h) (
    (λ e. (lookup_iff (or_default t.proto) p).0 ((found_iff _ _ p).0 e)),
    λ e. (found_iff _ _ p).1 ((lookup_iff (or_default t.proto) p).1 e),
  )

  -- The result of a prober that returned an outcome.
  pub probe-expected :
      (ps : Registry) (t : Target) (env : ProbeEnv setting) (timeout : ℕ) (p : Prober) (o : Outcome)
      → prober_for rt ps t ≡ ok p
      → run_prober rt p t env timeout ≡ some o
      → probe rt ps t env timeout ≡ some (expected floating t o)
  unfolding probe probe_with
  probe-expected ps t env timeout p o resolved ran =
      rw (resolved, ran) (to_result-expected floating t o)

  -- Which targets make no claim of liveness: those of an anonymous WireGuard probe.
  abbrev pub Silent : Target → Type 0
  Silent t =
      (or_default t.proto ≡ kind wireguard)
      × (is_anonymous setting (parse_wg_params setting t.params) ≡ true)

  run_prober_total :
      (p : Prober) (t : Target) (env : ProbeEnv setting) (timeout : ℕ)
      → or_default t.proto ≡ kind p
      → (o : Outcome) × (run_prober rt p t env timeout ≡ some o)
        × (o.no_liveness_claim ≡ true → Silent t)
  unfolding run_prober
  run_prober_total tls t env timeout e =
      (probe_tls t env.tls_env, refl, λ h. absurd (ground (arith, probe_tls-claims t env.tls_env)))
  run_prober_total udp t env timeout e =
      let (o, ran, stops, claims, untold) =
        probe_udp-Stops rt.decode_udp rt.decode_hex t env.udp_env timeout in
      (o, ran, λ h. absurd (ground arith))
  run_prober_total wireguard t env timeout e =
      let (o, ran, stops, claims, untold) = probe_wg-Stops setting t env.wg_env timeout in
      (o, ran, λ h. (e, sym claims ∙ h))

  -- What every result keeps of its target, and what it never shows.
  abbrev pub Describes : Result (Floating.Float64 floating) → Target → Type 0
  Describes r t =
      (r.params ≡ [])
      × (r.name ≡ t.name)
      × (r.addr ≡ t.addr)
      × (r.region ≡ t.region)
      × (r.provider ≡ t.provider)
      × (r.proto ≡ t.proto)

  -- A probe of any target returns a result: no prober panics. The result describes the target
  -- without its parameters, and it makes no claim of liveness only where the target asks for an
  -- anonymous WireGuard probe.
  pub probe-Describes :
      (ps : Registry) (t : Target) (env : ProbeEnv setting) (timeout : ℕ)
      → probers ≡ some ps
      → (r : Result (Floating.Float64 floating)) × (probe rt ps t env timeout ≡ some r)
        × Describes r t
        × (r.no_liveness_claim ≡ true → Silent t)
  unfolding probe probe_with new_result
  probe-Describes ps t env timeout h = elim (Except-cases (prober_for rt ps t)) [
    | inr (e, failed) ↦
        let shown = record (new_result t) { error = codes "config: " ++ e } in
        rw failed (shown, refl, (refl, refl, refl, refl, refl, refl), λ h. cc)
    | inl (p, resolved) ↦
        let (o, ran, silent) =
          run_prober_total p t env timeout ((prober_for_iff ps t p h).0 resolved) in
        (
          expected floating t o,
          rw (resolved, ran) (to_result-expected floating t o),
          (refl, refl, refl, refl, refl, refl),
          silent,
        )
  ]
