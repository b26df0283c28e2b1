-- ===== src/WireGuard/Laws.antt =====
-- The WireGuard prober of cmd/nodecheck/prober_wireguard.go: its configuration and its outcomes.
use tunnel_ops.Base.{
  ℕ, ◌<◌, Str, length, Bool, true, false, [], ◌∷◌, none, some, ◌≡◌, refl, ◌≢◌, inl, inr, ◌↔◌, arith,
  Except, ok, err, wrap, wrap-ok, ◌>>=◌, >>=-eq-ok, Except-cases,
}
use tunnel_ops.Target.{Target}
use tunnel_ops.Outcome.{Outcome}
use tunnel_ops.Udp.{attempts_of, config_failure, exchange_outcome, in_params}
use tunnel_ops.Udp.Laws.{Allows, attempts_of_iff, attempts_of_bounds}
use tunnel_ops.Udp.Exchange.Response.{Stops, run-Stops}
use tunnel_ops.WireGuard.Initiation.{WgInitiation}
use tunnel_ops.WireGuard.{
  WgParams, WgConfig, Setting, WgEnv, peer_of, parse_wg_params, wg_identity, exchanged, probe_wg,
  wg_exchange, in_public_key,
}

module _ (s : Setting) where
  open s use {crypto, decode, base64, private_key_env}
  open crypto use {PublicKey, PrivateKey, new_public_key}

  -- A public key in base64: it is there, has the size of a key, and is one.
  abbrev pub Encodes : Str → PublicKey → Type 0
  Encodes encoded peer =
      (encoded ≢ [])
      × ((key : Str) × (base64 encoded ≡ ok key)
          × (length key ≡ 32)
          × (new_public_key key ≡ ok peer))

  peer_of-Encodes :
      (encoded : Str) (peer : PublicKey) → peer_of s encoded ≡ ok peer → Encodes encoded peer
  unfolding peer_of
  peer_of-Encodes [] peer h = cc
  peer_of-Encodes (c ∷ cs) peer h = elim (Except-cases (base64 (c ∷ cs))) [
    | inr (e, failed) ↦ absurd (ground (arith, failed))
    | inl (key, decoded) ↦ (
      (λ e. cc),
      (
        key,
        decoded,
        ground (arith, decoded),
        (wrap-ok in_public_key (new_public_key key) peer).0 (ground (arith, decoded)),
      ),
    )
  ]

  Encodes-peer_of :
      (encoded : Str) (peer : PublicKey) → Encodes encoded peer → peer_of s encoded ≡ ok peer
  unfolding peer_of
  Encodes-peer_of [] peer h = absurd (h.0 refl)
  Encodes-peer_of (c ∷ cs) peer (there, (key, decoded, size, valid)) =
      rw (decoded, size, valid) refl

  -- What `parseWGParams` makes of an object.
  abbrev pub Configures : Str → WgConfig PublicKey → Type 0
  Configures raw cfg =
      (raw ≢ [])
      × ((p : WgParams) × (decode raw ≡ ok p)
          × Encodes p.public_key cfg.peer
          × Allows p.attempts cfg.attempts
          × (cfg.anonymous ≡ p.allow_anonymous))

  abbrev with_peer : WgParams → PublicKey → Except (WgConfig PublicKey)
  with_peer p peer = attempts_of p.attempts >>= λ n.
      ok (record { peer = peer; attempts = n; anonymous = p.allow_anonymous })

  abbrev with_params : WgParams → Except (WgConfig PublicKey)
  with_params p = peer_of s p.public_key >>= with_peer p

  parse_wg_params-Configures :
      (raw : Str) (cfg : WgConfig PublicKey) → parse_wg_params s raw ≡ ok cfg → Configures raw cfg
  unfolding parse_wg_params
  parse_wg_params-Configures [] cfg h = cc
  parse_wg_params-Configures (c ∷ cs) cfg h =
      let (p, e, h₁) = >>=-eq-ok (wrap in_params (decode (c ∷ cs))) with_params h in
      let (peer, e', h₂) = >>=-eq-ok (peer_of s p.public_key) (with_peer p) h₁ in
      let (n, e'', h₃) =
        >>=-eq-ok (attempts_of p.attempts)
          (λ k. ok (record { peer = peer; attempts = k; anonymous = p.allow_anonymous })) h₂ in
      let same_peer : peer ≡ cfg.peer = ground arith in
      let same_n : n ≡ cfg.attempts = ground arith in
      (
        (λ e. cc),
        (
          p,
          (wrap-ok in_params (decode (c ∷ cs)) p).0 e,
          peer_of-Encodes p.public_key cfg.peer (rw same_peer at e'),
          (attempts_of_iff p.attempts cfg.attempts).0 (rw same_n at e''),
          ground arith,
        ),
      )

  Configures-parse_wg_params :
      (raw : Str) (cfg : WgConfig PublicKey) → Configures raw cfg → parse_wg_params s raw ≡ ok cfg
  unfolding parse_wg_params
  Configures-parse_wg_params [] cfg h = absurd (h.0 refl)
  Configures-parse_wg_params (c ∷ cs) cfg (there, (p, e, encodes, allows, anonymous)) =
      rw
        (
          e,
          Encodes-peer_of p.public_key cfg.peer encodes,
          (attempts_of_iff p.attempts cfg.attempts).1 allows,
          ← anonymous,
        )
        refl

  -- `parseWGParams` accepts an object exactly when it is there and decodes, its public key is a key
  -- of the right size in base64, and its number of attempts is allowed.
  pub parse_wg_params_iff :
      (raw : Str) (cfg : WgConfig PublicKey) → (parse_wg_params s raw ≡ ok cfg) ↔ Configures raw cfg
  parse_wg_params_iff raw cfg =
      (parse_wg_params-Configures raw cfg, Configures-parse_wg_params raw cfg)

  -- Accepted parameters ask for an attempt.
  pub parse_wg_params-attempts :
      (raw : Str) (cfg : WgConfig PublicKey) → parse_wg_params s raw ≡ ok cfg → 0 < cfg.attempts
  parse_wg_params-attempts raw cfg parsed =
      let (there, (p, e, encodes, allows, same)) = (parse_wg_params_iff raw cfg).0 parsed in
      (attempts_of_bounds p.attempts cfg.attempts
        ((attempts_of_iff p.attempts cfg.attempts).1 allows)).0

  -- Without a registered private key an identity is had exactly in anonymous mode, and it is then
  -- the generated one.
  pub wg_identity_unregistered :
      (anonymous : Bool) (generated : Except PrivateKey) (k : PrivateKey)
      → private_key_env ≡ []
      → (wg_identity s anonymous generated ≡ ok k) ↔ ((anonymous ≡ true) × (generated ≡ ok k))
  unfolding wg_identity
  wg_identity_unregistered true generated k h = rw h (λ e. (refl, e), λ e. e.1)
  wg_identity_unregistered false generated k h = rw h (λ e. cc, λ e. cc)

  exchanged-Stops :
      (t : Target) (env : WgEnv crypto) (timeout : ℕ) (cfg : WgConfig PublicKey)
      (m : Except WgInitiation)
      → 0 < cfg.attempts
      → (o : Outcome) × (exchanged s t env timeout cfg m ≡ some o)
        × Stops o.phases
        × (o.no_liveness_claim ≡ cfg.anonymous)
        × (o.tls ≡ none)
  unfolding exchanged
  exchanged-Stops t env timeout cfg (err e) h =
      (config_failure cfg.anonymous e, refl, tt, refl, refl)
  exchanged-Stops t env timeout cfg (ok msg) h =
      let (r, ran, stops) = run-Stops (wg_exchange s t cfg msg) env.network timeout h in
      (exchange_outcome cfg.anonymous r.phases, rw ran refl, stops, refl, refl)

  -- Whether a result is kept out of the liveness metric: the parameters are accepted, and anonymous.
  abbrev pub is_anonymous : Except (WgConfig PublicKey) → Bool
  is_anonymous (err e) = false
  is_anonymous (ok cfg) = cfg.anonymous

  -- The prober never panics and stops at the first phase that fails; and how far it got does not
  -- change whether its outcome claims liveness: only the configuration does.
  pub probe_wg-Stops :
      (t : Target) (env : WgEnv crypto) (timeout : ℕ)
      → (o : Outcome) × (probe_wg s t env timeout ≡ some o)
        × Stops o.phases
        × (o.no_liveness_claim ≡ is_anonymous (parse_wg_params s t.params))
        × (o.tls ≡ none)
  unfolding probe_wg
  probe_wg-Stops t env timeout = elim (Except-cases (parse_wg_params s t.params)) [
    | inr (e, failed) ↦ rw (failed, is_anonymous) (config_failure false e, refl, tt, refl, refl)
    | inl (cfg, parsed) ↦
        rw (parsed, is_anonymous)
          (exchanged-Stops t env timeout cfg _ (parse_wg_params-attempts t.params cfg parsed))
  ]
