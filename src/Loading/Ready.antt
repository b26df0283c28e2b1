-- ===== src/Loading/Ready.antt =====
-- What the targets that `loadTargets` of cmd/nodecheck/main.go accepts are ready for.
use tunnel_ops.Base.{
  ℕ, suc, Str, List, [], ◌∷◌, false, All, none, some, is_empty-cases, ok, Except, ◌≡◌, ◌≢◌, inl,
  inr, arith,
}
use tunnel_ops.Target.{Target}
use tunnel_ops.Tls.{validate_tls}
use tunnel_ops.Udp.{probe_udp, udp_exchange, parse_udp_params, exchange_outcome}
use tunnel_ops.Udp.Exchange.{Env, Exchanged, run}
use tunnel_ops.Udp.Laws.{validate_udp-probe_udp}
use tunnel_ops.WireGuard.{Setting}
use tunnel_ops.WireGuard.Primitives.{Crypto}
use tunnel_ops.WireGuard.Validated
use tunnel_ops.WireGuard.Validated.{validate_wg-Ready}
use tunnel_ops.Prober.{Prober, tls, udp, wireguard, Registry, Runtime, prober_for, validate}
use tunnel_ops.Loading.{load_targets}
use tunnel_ops.Loading.Laws.{AllValid, load_targets_iff}

module _ (rt : Runtime) where
  open rt use {setting, decode_udp, decode_hex}

  -- The parameters are accepted, and each probe is the exchange that they ask for.
  abbrev pub UdpReady : Target → Type 0
  UdpReady t =
      (t.addr ≢ [])
      × ((payload : Str) × (n : ℕ) × (parse_udp_params decode_udp decode_hex t.params
            ≡ ok (payload, n))
          × ((env : Env) (timeout : ℕ)
              → (r : Exchanged) × (run (udp_exchange decode_udp decode_hex t (payload, n)) env
                    timeout
                  ≡ some r)
                × (probe_udp decode_udp decode_hex t env timeout
                    ≡ some (exchange_outcome false r.phases))))

  abbrev pub ReadyFor : Prober → Target → Type 0
  ReadyFor tls t = t.addr ≢ []
  ReadyFor udp t = UdpReady t
  ReadyFor wireguard t = Validated.Ready setting t

  validate-ReadyFor :
      (p : Prober) (t : Target) (generated : Except (Crypto.PrivateKey (Setting.crypto setting)))
      → validate rt p t generated ≡ none
      → ReadyFor p t
  unfolding validate validate_tls
  validate-ReadyFor tls t generated h = elim (is_empty-cases t.addr) [
    | inl (missing, e) ↦ absurd (ground (arith, rw e at h))
    | inr (there, e) ↦ there
  ]
  validate-ReadyFor udp t generated h = validate_udp-probe_udp decode_udp decode_hex t h
  validate-ReadyFor wireguard t generated h = validate_wg-Ready setting t generated h

  -- A target with a prober that it is ready for.
  abbrev pub Ready : Registry → Target → Type 0
  Ready ps t = (p : Prober) × (prober_for rt ps t ≡ ok p) × ReadyFor p t

  module _ (unmarshal : Str → Except (List Target))
      (generated : ℕ → Except (Crypto.PrivateKey (Setting.crypto setting))) (ps : Registry) where
    AllValid-Ready :
        (i : ℕ) (ts : List Target) → AllValid rt unmarshal generated ps i ts → All (Ready ps) ts
    AllValid-Ready i [] h = tt
    AllValid-Ready i (t ∷ ts) ((p, resolved, valid), h) =
        ((p, resolved, validate-ReadyFor p t (generated i) valid), AllValid-Ready (suc i) ts h)

    -- In a list that `loadTargets` accepts, every target has a prober and an address. A target of the UDP prober has accepted
    -- parameters, and each of its probes is the exchange that they ask for. A target of the WireGuard
    -- prober has accepted parameters and an identity, the registered one if there is one, and
    -- otherwise a generated one in anonymous mode; each of its probes for which the message can be
    -- built is the exchange of that message, and any other is a failed send phase with the error of
    -- the message.
    pub load_targets-Ready :
        (path : Str) (file : Except Str) (ts : List Target)
        → load_targets rt unmarshal generated ps path file ≡ ok ts
        → All (Ready ps) ts
    load_targets-Ready path file ts h =
        let (text, read, decoded, there, valid) =
          (load_targets_iff rt unmarshal generated ps path file ts).0 h in
        AllValid-Ready 0 ts valid
