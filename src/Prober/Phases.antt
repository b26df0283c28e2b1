-- ===== src/Prober/Phases.antt =====
-- Which family of phases each prober of cmd/nodecheck reports, and so which results are pushed.
use tunnel_ops.Base.{
  ℕ, ◌<◌, Str, codes, str_eq, Bool, true, false, [], ◌++◌, Option, none, some, ◌≡◌, refl, inl, inr,
  sym, ◌∙◌, arith, Except, ok, err, Except-cases, Option-cases, Bool-cases, some-eq, is_some,
  str_eq_iff,
}
use tunnel_ops.Target.{Floating, Target, Result, new_result}
use tunnel_ops.Outcome.{Outcome, phase_tcp, phase_tls}
use tunnel_ops.Outcome.Expected.{has_legacy, only_if, expected}
use tunnel_ops.Tls.{
  TlsEnv, TlsDial, dial_error, other_conn, tls_conn, handshake, connect, effective_sni, probe_tls,
}
use tunnel_ops.WireGuard.Primitives.{Crypto}
use tunnel_ops.WireGuard.Initiation.{WgInitiation}
use tunnel_ops.Udp.{
  UdpParams, config_failure, exchange_outcome, parse_udp_params, probe_udp, udp_exchange,
}
use tunnel_ops.Udp.Laws.{parse_udp_params-attempts}
use tunnel_ops.Udp.Exchange.{UdpExchange, Env, Exchanged, run}
use tunnel_ops.Udp.Exchange.Response.{set_up_error, run_not_set_up, run_verdict}
use tunnel_ops.WireGuard.{
  Setting, WgEnv, WgConfig, parse_wg_params, exchanged, wg_exchange, probe_wg,
}
use tunnel_ops.WireGuard.Laws.{parse_wg_params-attempts}
use tunnel_ops.Prober.{
  Prober, tls, udp, wireguard, kind, or_default, Runtime, ProbeEnv, prober_for, run_prober,
  probe_with, probe,
}
use tunnel_ops.Prober.Laws.{built_in, probers_lem, prober_for_iff, probe-expected}

-- A name that is neither "tcp" nor "tls".
abbrev IsOther : Str → Type 0
IsOther n = (str_eq n phase_tcp ≡ false) × (str_eq n phase_tls ≡ false)

-- An exchange whose phases have other names reports no legacy phase.
run-has_legacy :
    (x : UdpExchange) (env : Env) (timeout : ℕ)
    → IsOther x.send_phase
    → IsOther x.resp_phase
    → 0 < x.attempts
    → (r : Exchanged) × (run x env timeout ≡ some r) × (has_legacy r.phases ≡ false)
run-has_legacy x env timeout s w h = elim (Option-cases (set_up_error x env timeout)) [
  | inr (e, failed) ↦
      let (r, ran, (d, one), silent) = run_not_set_up x env timeout e failed in
      (r, ran, rw (one, s.0, s.1) refl)
  | inl set_up ↦
      let (v, c, (r, sent, resp, ran, two, named, other, resp_ok, shown, replied)) =
        run_verdict x env timeout set_up h in
      (r, ran, rw (two, named, other, s.0, s.1, w.0, w.1) refl)
]

probe_udp-has_legacy :
    (decode : Str → Except UdpParams) (decode_hex : Str → Except Str) (t : Target) (env : Env)
    (timeout : ℕ)
    → (o : Outcome) × (probe_udp decode decode_hex t env timeout ≡ some o)
      × (has_legacy o.phases ≡ false)
unfolding probe_udp str_eq
probe_udp-has_legacy decode decode_hex t env timeout =
    elim (Except-cases (parse_udp_params decode decode_hex t.params)) [
      | inr (e, failed) ↦ (config_failure false e, rw failed refl, refl)
      | inl ((payload, n), parsed) ↦
          let (r, ran, plain) =
            run-has_legacy (udp_exchange decode decode_hex t (payload, n)) env timeout (refl, refl)
              (refl, refl)
              (parse_udp_params-attempts decode decode_hex t.params payload n parsed) in
          (exchange_outcome false r.phases, rw (parsed, ran) refl, plain)
    ]

module _ (s : Setting) where
  open s use {crypto}

  -- The response phase of a WireGuard exchange, strict or anonymous.
  wg_exchange-IsOther :
      (t : Target) (cfg : WgConfig (Crypto.PublicKey crypto)) (msg : WgInitiation)
      → IsOther (UdpExchange.resp_phase (wg_exchange s t cfg msg))
  unfolding str_eq
  wg_exchange-IsOther t cfg msg = elim (Bool-cases cfg.anonymous) [
    | inl h ↦ simp h (refl, refl)
    | inr h ↦ simp h (refl, refl)
  ]

  exchanged-has_legacy :
      (t : Target) (env : WgEnv crypto) (timeout : ℕ) (cfg : WgConfig (Crypto.PublicKey crypto))
      (m : Except WgInitiation)
      → 0 < cfg.attempts
      → (o : Outcome) × (exchanged s t env timeout cfg m ≡ some o) × (has_legacy o.phases ≡ false)
  unfolding exchanged str_eq
  exchanged-has_legacy t env timeout cfg (err e) h = (config_failure cfg.anonymous e, refl, refl)
  exchanged-has_legacy t env timeout cfg (ok msg) h =
      let (r, ran, plain) =
        run-has_legacy (wg_exchange s t cfg msg) env.network timeout (refl, refl)
          (wg_exchange-IsOther t cfg msg) h in
      (exchange_outcome cfg.anonymous r.phases, rw ran refl, plain)

  probe_wg-has_legacy :
      (t : Target) (env : WgEnv crypto) (timeout : ℕ)
      → (o : Outcome) × (probe_wg s t env timeout ≡ some o) × (has_legacy o.phases ≡ false)
  unfolding probe_wg str_eq
  probe_wg-has_legacy t env timeout = elim (Except-cases (parse_wg_params s t.params)) [
    | inr (e, failed) ↦ (config_failure false e, rw failed refl, refl)
    | inl (cfg, parsed) ↦
        rw parsed (
          exchanged-has_legacy t env timeout cfg _ (parse_wg_params-attempts s t.params cfg parsed))
  ]

-- A TLS probe reports the tcp phase, whatever it meets.
probe_tls-has_legacy :
    (t : Target) (env : TlsEnv) → has_legacy (Outcome.phases (probe_tls t env)) ≡ true
unfolding probe_tls
probe_tls-has_legacy t env = connected (effective_sni t env) env.tcp_error
  where
    shaken : (sni : Str) (d : TlsDial) → has_legacy (Outcome.phases (handshake env sni d)) ≡ true
    shaken sni (dial_error e) = unfold handshake str_eq in refl
    shaken sni other_conn = unfold handshake str_eq in refl
    shaken sni (tls_conn state) = unfold handshake str_eq in refl

    connected :
        (sni : Str) (e : Option Str) → has_legacy (Outcome.phases (connect env sni e)) ≡ true
    connected sni (some e) = unfold connect str_eq in refl
    connected sni none = unfold connect in shaken sni env.tls_dial

is_some-only_if {ℓ} : {A : Type ℓ} (b : Bool) (v : A) → is_some (only_if b v) ≡ b
is_some-only_if true v = refl
is_some-only_if false v = refl

module _ (rt : Runtime) where
  open rt use {floating, setting}

  -- Only the TLS prober reports the tcp and tls phases.
  abbrev is_tls : Prober → Bool
  is_tls p = elim p [ tls ↦ true | udp ↦ false | wireguard ↦ false ]

  pub run_prober-has_legacy :
      (p : Prober) (t : Target) (env : ProbeEnv setting) (timeout : ℕ)
      → (o : Outcome) × (run_prober rt p t env timeout ≡ some o) × (has_legacy o.phases ≡ is_tls p)
  unfolding run_prober
  run_prober-has_legacy tls t env timeout =
      (probe_tls t env.tls_env, refl, probe_tls-has_legacy t env.tls_env)
  run_prober-has_legacy udp t env timeout =
      probe_udp-has_legacy rt.decode_udp rt.decode_hex t env.udp_env timeout
  run_prober-has_legacy wireguard t env timeout = probe_wg-has_legacy setting t env.wg_env timeout

  -- Whether a target asks for the TLS prober, which an empty `proto` does.
  abbrev pub asks_tls : Target → Bool
  asks_tls t = str_eq (or_default t.proto) (kind tls)

  is_tls_iff : (p : Prober) (k : Str) → k ≡ kind p → is_tls p ≡ str_eq k (kind tls)
  unfolding str_eq
  is_tls_iff tls k h = rw h refl
  is_tls_iff udp k h = rw h refl
  is_tls_iff wireguard k h = rw h refl

  -- Whether the fields of the tcp and tls phases are there.
  abbrev pub HasLegacy : Result (Floating.Float64 floating) → Bool → Type 0
  HasLegacy r b =
      (is_some r.tcp_ok ≡ b)
      × (is_some r.tls_ok ≡ b)
      × (is_some r.tcp_time ≡ b)
      × (is_some r.tls_time ≡ b)
      × (is_some r.cert_match ≡ b)

  -- A result has the fields of the tcp and tls phases exactly where its target asks for the TLS
  -- prober, all of them or none; and then it has no list of phases.
  pub probe-legacy :
      (t : Target) (env : ProbeEnv setting) (timeout : ℕ) (r : Result (Floating.Float64 floating))
      → probe rt built_in t env timeout ≡ some r
      → HasLegacy r (asks_tls t) × (asks_tls t ≡ true → r.phases ≡ [])
  unfolding probe probe_with new_result
  probe-legacy t env timeout r h = elim (Except-cases (prober_for rt built_in t)) [
    | inr (e, failed) ↦
        let unasked : asks_tls t ≡ false = ground (
          arith,
          str_eq_iff (or_default t.proto) (kind tls),
          (prober_for_iff rt built_in t tls probers_lem).1,
          failed,
        ) in
        let shown : record (new_result t) { error = codes "config: " ++ e } ≡ r =
          some-eq (rw failed at h) in
        rw (← shown, unasked) ((refl, refl, refl, refl, refl), λ k. refl)
    | inl (p, resolved) ↦
        let (o, ran, family) = run_prober-has_legacy p t env timeout in
        let shown : expected floating t o ≡ r =
          some-eq (sym (probe-expected rt built_in t env timeout p o resolved ran) ∙ h) in
        let asked : has_legacy o.phases ≡ asks_tls t =
          family ∙ is_tls_iff p _ ((prober_for_iff rt built_in t p probers_lem).0 resolved) in
        rw (← shown, ← asked)
          (
            (
              is_some-only_if _ _,
              is_some-only_if _ _,
              is_some-only_if _ _,
              is_some-only_if _ _,
              is_some-only_if _ _,
            ),
            λ k. rw k refl,
          )
  ]
