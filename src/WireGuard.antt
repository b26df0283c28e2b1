-- ===== src/WireGuard.antt =====
-- cmd/nodecheck/prober_wireguard.go: the parameters, the identity and the prober. The decoders of
-- JSON and base64 and the environment variable are parameters, as is all that the cryptography and
-- the random source answer.
pub mod Primitives
pub mod Noise
pub mod Initiation
pub mod Responder
pub mod Response
pub mod Timestamp
pub mod Validated
pub mod Laws
mod Tests
use mathlib.Core.Option
use tunnel_ops.Base.{
  ℕ, Str, codes, decimal, is_empty, Bool, true, false, not, ◌++◌, Option, some, if◌then◌else◌, ◌==◌,
  length, Except, ok, err, fail_if, wrap, ◌>>=◌, ◌>>◌,
}
use tunnel_ops.Base.Int.{ℤ}
use tunnel_ops.Target.{Target}
use tunnel_ops.Outcome.{Outcome}
use tunnel_ops.Udp.{
  phase_udp_send, attempts_of, config_failure, exchange_outcome, error_of, in_params,
}
use tunnel_ops.Udp.Exchange.{UdpExchange, Env, run}
use tunnel_ops.WireGuard.Primitives.{Crypto}
use tunnel_ops.WireGuard.Noise.{wg_key_size}
use tunnel_ops.WireGuard.Initiation.{WgInitiation, Random, build_wg_initiation}
use tunnel_ops.WireGuard.Response.{validate_response, accept_anonymous}

abbrev pub phase_wg_handshake : Str
phase_wg_handshake = codes "handshake"

abbrev pub phase_wg_initiation_sent : Str
phase_wg_initiation_sent = codes "initiation-sent"

abbrev pub wg_private_key_env : Str
wg_private_key_env = codes "NODECHECK_WG_PRIVATE_KEY"

pub record WgParams : Type 0 where
  pub public_key : Str
  pub attempts : ℤ
  pub allow_anonymous : Bool

pub record WgConfig (PublicKey : Type 0) : Type 0 where
  pub peer : PublicKey
  pub attempts : ℕ
  pub anonymous : Bool

abbrev key_required : Str
key_required = codes "params: \"public_key\" is required"

abbrev peer_required : Str
peer_required =
    codes "needs a registered monitoring peer: set "
    ++ wg_private_key_env
    ++ codes
        " to the private key whose public key is registered as a peer on this node (see README \"wireguard\"), or set \"allow_anonymous\": true in params to send an initiation that cannot confirm the node is alive"

abbrev pub in_public_key : Str
in_public_key = codes "params: public_key: "

-- "got %d bytes, want %d"
abbrev wrong_size : Str → Str
wrong_size key =
    codes "got " ++ decimal (length key) ++ codes " bytes, want " ++ decimal wg_key_size

-- What a process is given besides its targets: the decoders, the cryptography, and the value of
-- NODECHECK_WG_PRIVATE_KEY, empty where it is not set.
pub record Setting : Type 1 where
  pub crypto : Crypto
  pub decode : Str → Except WgParams
  pub base64 : Str → Except Str
  pub private_key_env : Str

-- What one probe is answered: the key that `GenerateKey` returns for an anonymous identity, the
-- random values of the message, the time, and the network.
pub record WgEnv (c : Crypto) : Type 0 where
  pub generated : Except (Crypto.PrivateKey c)
  pub random : Random c
  pub now : ℕ
  pub network : Env

module _ (s : Setting) where
  open s use {crypto, decode, base64, private_key_env}
  open crypto use {PublicKey, PrivateKey, new_public_key, new_private_key}

  peer_of : Str → Except PublicKey
  peer_of encoded = do
    fail_if (is_empty encoded) key_required
    key ← wrap in_public_key (base64 encoded)
    fail_if (not (length key == wg_key_size)) (in_public_key ++ wrong_size key)
    wrap in_public_key (new_public_key key)

  unfoldable pub parse_wg_params : Str → Except (WgConfig PublicKey)
  unfolding peer_of attempts_of
  parse_wg_params raw = do
    fail_if (is_empty raw) key_required
    p ← wrap in_params (decode raw)
    peer ← peer_of p.public_key
    attempts ← attempts_of p.attempts
    ok (record { peer = peer; attempts = attempts; anonymous = p.allow_anonymous })

  wg_parse_private_key : Str → Except PrivateKey
  wg_parse_private_key raw = do
    key ← wrap (wg_private_key_env ++ codes ": ") (base64 raw)
    fail_if (not (length key == wg_key_size)) (wg_private_key_env ++ codes ": " ++ wrong_size key)
    wrap (wg_private_key_env ++ codes ": ") (new_private_key key)

  unfoldable pub wg_identity : Bool → Except PrivateKey → Except PrivateKey
  unfolding wg_parse_private_key
  wg_identity anonymous generated =
      if is_empty private_key_env
      then if not anonymous then err peer_required else generated
      else wg_parse_private_key private_key_env

  -- `wgProber.Validate`: an error's text, or `none`.
  unfoldable pub validate_wg : Target → Except PrivateKey → Option Str
  unfolding parse_wg_params wg_identity
  validate_wg t generated =
      if is_empty t.addr
      then some (codes "addr is required")
      else error_of (do cfg ← parse_wg_params t.params; wg_identity cfg.anonymous generated)

  -- The exchange that a message is sent by, strict or for an anonymous initiator.
  abbrev pub wg_exchange : Target → WgConfig PublicKey → WgInitiation → UdpExchange
  wg_exchange t cfg msg = record {
    addr = t.addr;
    payload = msg.packet;
    attempts = cfg.attempts;
    send_phase = phase_udp_send;
    resp_phase = if cfg.anonymous then phase_wg_initiation_sent else phase_wg_handshake;
    accept = some (if cfg.anonymous then accept_anonymous msg else validate_response msg);
    silence_ok = cfg.anonymous;
  }

  unfoldable pub exchanged :
      Target → WgEnv crypto → ℕ → WgConfig PublicKey → Except WgInitiation → Option Outcome
  exchanged t env timeout cfg (err e) = some (config_failure cfg.anonymous e)
  exchanged t env timeout cfg (ok msg) =
      Option.map (λ r. exchange_outcome cfg.anonymous r.phases)
        (run (wg_exchange t cfg msg) env.network timeout)

  probe_configured : Target → WgEnv crypto → ℕ → Except (WgConfig PublicKey) → Option Outcome
  unfolding exchanged
  probe_configured t env timeout (err e) = some (config_failure false e)
  probe_configured t env timeout (ok cfg) = exchanged t env timeout cfg (do
    static ← wg_identity cfg.anonymous env.generated
    build_wg_initiation crypto cfg.peer static env.now env.random)

  -- `wgProber.Probe`; `none` is a panic.
  unfoldable pub probe_wg : Target → WgEnv crypto → ℕ → Option Outcome
  unfolding probe_configured
  probe_wg t env timeout = probe_configured t env timeout (parse_wg_params t.params)
