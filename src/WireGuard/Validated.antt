-- ===== src/WireGuard/Validated.antt =====
-- What `Validate` of cmd/nodecheck/prober_wireguard.go settles for the probes of its target.
use tunnel_ops.Base.{
  ℕ, Str, Bool, true, [], none, some, is_empty-cases, Except, ok, err, ◌>>=◌, >>=-eq-ok, Bool-cases,
  ◌≡◌, refl, ◌≢◌, ◌⊎◌, inl, inr, arith,
}
use tunnel_ops.Target.{Target}
use tunnel_ops.Udp.{exchange_outcome, error_of, config_failure}
use tunnel_ops.Udp.Exchange.{Exchanged, run}
use tunnel_ops.Udp.Exchange.Response.{run-Stops}
use tunnel_ops.WireGuard.{
  Setting, WgConfig, WgEnv, parse_wg_params, wg_identity, validate_wg, wg_exchange, exchanged,
  probe_wg,
}
use tunnel_ops.WireGuard.Initiation.{WgInitiation, build_wg_initiation}
use tunnel_ops.WireGuard.Laws.{parse_wg_params-attempts}

error_of_iff : {A : Type 0} (m : Except A) → error_of m ≡ none → (a : A) × (m ≡ ok a)
error_of_iff (ok a) h = (a, refl)
error_of_iff (err e) h = cc

module _ (s : Setting) where
  open s use {crypto, private_key_env}
  open crypto use {PublicKey, PrivateKey}

  -- The registered key if there is one, and otherwise a generated one, in anonymous mode only.
  abbrev pub HasIdentity : Bool → Type 0
  HasIdentity anonymous =
      ((private_key_env ≡ [])
        × (anonymous ≡ true)
        × ((generated : Except PrivateKey) → wg_identity s anonymous generated ≡ generated))
      ⊎ ((private_key_env ≢ [])
          × ((k : PrivateKey) × ((generated : Except PrivateKey)
                → wg_identity s anonymous generated ≡ ok k)))

  -- The message that a probe sends.
  abbrev pub message : WgConfig PublicKey → WgEnv crypto → Except WgInitiation
  message cfg env = do
    static ← wg_identity s cfg.anonymous env.generated
    build_wg_initiation crypto cfg.peer static env.now env.random

  -- The parameters are accepted and there is an identity. A probe is the exchange of the message;
  -- where that cannot be built, it is a send phase that failed with the error.
  abbrev pub Ready : Target → Type 0
  Ready t =
      (t.addr ≢ [])
      × ((cfg : WgConfig PublicKey) × (parse_wg_params s t.params ≡ ok cfg)
          × HasIdentity cfg.anonymous
          × ((env : WgEnv crypto) (timeout : ℕ) (msg : WgInitiation)
              → message cfg env ≡ ok msg
              → (r : Exchanged) × (run (wg_exchange s t cfg msg) env.network timeout ≡ some r)
                × (probe_wg s t env timeout ≡ some (exchange_outcome cfg.anonymous r.phases)))
          × ((env : WgEnv crypto) (timeout : ℕ) (e : Str)
              → message cfg env ≡ err e
              → probe_wg s t env timeout ≡ some (config_failure cfg.anonymous e)))

  identity-HasIdentity :
      (anonymous : Bool) (generated : Except PrivateKey) (k : PrivateKey)
      → wg_identity s anonymous generated ≡ ok k
      → HasIdentity anonymous
  unfolding wg_identity
  identity-HasIdentity anonymous generated k h = elim (is_empty-cases private_key_env) [
    | inr (there, e) ↦ inr (there, (k, λ g. rw e (rw e at h)))
    | inl (unset, e) ↦ elim (Bool-cases anonymous) [
      | inl b ↦ inl (unset, b, λ g. rw (e, b) refl)
      | inr b ↦ absurd (ground (arith, rw (e, b) at h))
    ]
  ]

  -- A probe with its message built.
  sends :
      (t : Target) (cfg : WgConfig PublicKey) (env : WgEnv crypto) (timeout : ℕ)
      (msg : WgInitiation)
      → parse_wg_params s t.params ≡ ok cfg
      → message cfg env ≡ ok msg
      → (r : Exchanged) × (run (wg_exchange s t cfg msg) env.network timeout ≡ some r)
        × (probe_wg s t env timeout ≡ some (exchange_outcome cfg.anonymous r.phases))
  unfolding probe_wg exchanged
  sends t cfg env timeout msg parsed made =
      let (r, ran, stops) =
        run-Stops (wg_exchange s t cfg msg) env.network timeout
          (parse_wg_params-attempts s t.params cfg parsed) in
      (r, ran, rw (parsed, made, ran) refl)

  -- A probe with a message that cannot be built.
  unsent :
      (t : Target) (cfg : WgConfig PublicKey) (env : WgEnv crypto) (timeout : ℕ) (e : Str)
      → parse_wg_params s t.params ≡ ok cfg
      → message cfg env ≡ err e
      → probe_wg s t env timeout ≡ some (config_failure cfg.anonymous e)
  unfolding probe_wg exchanged
  unsent t cfg env timeout e parsed failed = rw (parsed, failed) refl

  validated_target :
      (t : Target) (generated : Except PrivateKey)
      → error_of (do cfg ← parse_wg_params s t.params; wg_identity s cfg.anonymous generated) ≡ none
      → t.addr ≢ []
      → Ready t
  validated_target t generated h there =
      let (k, accepted) = error_of_iff _ h in
      let (cfg, parsed, identified) =
        >>=-eq-ok (parse_wg_params s t.params) (λ cfg. wg_identity s cfg.anonymous generated)
          accepted in
      (
        there,
        (
          cfg,
          parsed,
          identity-HasIdentity cfg.anonymous generated k identified,
          (λ env timeout msg made. sends t cfg env timeout msg parsed made),
          λ env timeout e failed. unsent t cfg env timeout e parsed failed,
        ),
      )

  -- A target that `Validate` accepts has an address, accepted parameters, and an identity.
  pub validate_wg-Ready :
      (t : Target) (generated : Except PrivateKey) → validate_wg s t generated ≡ none → Ready t
  unfolding validate_wg
  validate_wg-Ready t generated h = elim (is_empty-cases t.addr) [
    | inl (missing, e) ↦ absurd (ground (arith, rw e at h))
    | inr (there, e) ↦ validated_target t generated (rw e at h) there
  ]
