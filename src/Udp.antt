-- ===== src/Udp.antt =====
-- cmd/nodecheck/prober_udp.go: the parameters of a UDP probe and the exchange of datagrams that the
-- UDP and WireGuard probers share. The JSON decoder and the hex decoder are parameters.
pub mod Exchange
pub mod Laws
mod Tests
use tunnel_ops.Base.{
  ℕ, Str, codes, decimal, is_empty, Bool, false, not, ◌&&◌, List, [], ◌∷◌, ◌++◌, Option, none, some,
  if◌then◌else◌, ltb, ◌==◌, Except, ok, err, wrap, ◌>>=◌,
}
use mathlib.Core.Option
use tunnel_ops.Target.{Target}
use tunnel_ops.Outcome.{Phase, Outcome}
use tunnel_ops.Udp.Exchange.{UdpExchange, Env, run}
use tunnel_ops.Base.Int.{ℤ, pos, negsuc, decimal_ℤ}

abbrev pub phase_udp_send : Str
phase_udp_send = codes "udp"

abbrev pub phase_udp_response : Str
phase_udp_response = codes "response"

abbrev pub default_udp_attempts : ℕ
default_udp_attempts = 3

abbrev pub max_udp_attempts : ℕ
max_udp_attempts = 10

-- An outcome with a failed send phase alone, which says what is wrong with the configuration.
abbrev pub config_failure : Bool → Str → Outcome
config_failure no_claim e = record {
  phases = record { name = phase_udp_send; ok = false; duration = 0; err = e } ∷ [];
  tls = none;
  no_liveness_claim = no_claim;
}

abbrev pub exchange_outcome : Bool → List Phase → Outcome
exchange_outcome no_claim phases = record {
  phases = phases;
  tls = none;
  no_liveness_claim = no_claim;
}

abbrev pub error_of {ℓ} : {A : Type ℓ} → Except A → Option Str
error_of (ok a) = none
error_of (err e) = some e

pub record UdpParams : Type 0 where
  pub payload : Str
  pub payload_hex : Str
  pub attempts : ℤ

abbrev no_params : UdpParams
no_params = record { payload = []; payload_hex = []; attempts = pos 0 }

-- The `switch` on `attempts`, which `parseUDPParams` and `parseWGParams` both hold.
unfoldable pub attempts_of : ℤ → Except ℕ
attempts_of (pos n) =
    if n == 0
    then ok default_udp_attempts
    else if ltb max_udp_attempts n
    then err (
        codes "params: attempts must be at most "
        ++ decimal max_udp_attempts
        ++ codes ", got "
        ++ decimal n)
    else ok n
attempts_of (negsuc n) =
    err (codes "params: attempts must be positive, got " ++ decimal_ℤ (negsuc n))

abbrev both_set : Str
both_set = codes "params: set either \"payload\" or \"payload_hex\", not both"

abbrev pub in_params : Str
in_params = codes "params: "

abbrev pub in_payload_hex : Str
in_payload_hex = codes "params: payload_hex: "

-- `decode` is the JSON decoder with DisallowUnknownFields, `decode_hex` is hex.DecodeString.
module _ (decode : Str → Except UdpParams) (decode_hex : Str → Except Str) where
  -- An absent object leaves the zero value.
  decoded : Str → Except UdpParams
  decoded raw = if is_empty raw then ok no_params else wrap in_params (decode raw)

  -- The `switch` on the two payloads, literal and hexadecimal.
  payload_of : Str → Str → Except Str
  payload_of literal hex =
      if not (is_empty literal) && not (is_empty hex)
      then err both_set
      else if not (is_empty hex)
      then wrap in_payload_hex (decode_hex hex)
      else if not (is_empty literal)
      then ok literal
      else ok (0 ∷ [])

  unfoldable pub parse_udp_params : Str → Except (Str × ℕ)
  unfolding decoded payload_of attempts_of
  parse_udp_params raw = do
    p ← decoded raw
    payload ← payload_of p.payload p.payload_hex
    attempts ← attempts_of p.attempts
    ok (payload, attempts)

  -- `udpProber.Validate`: an error's text, or `none`.
  unfoldable pub validate_udp : Target → Option Str
  unfolding parse_udp_params
  validate_udp t =
      if is_empty t.addr
      then some (codes "addr is required")
      else error_of (parse_udp_params t.params)

  -- The exchange that `udpProber.Probe` runs. Any datagram counts.
  abbrev pub udp_exchange : Target → Str × ℕ → UdpExchange
  udp_exchange t (payload, attempts) = record {
    addr = t.addr;
    payload = payload;
    attempts = attempts;
    send_phase = phase_udp_send;
    resp_phase = phase_udp_response;
    accept = none;
    silence_ok = false;
  }

  probe_parsed : Target → Env → ℕ → Except (Str × ℕ) → Option Outcome
  probe_parsed t env timeout (err e) = some (config_failure false e)
  probe_parsed t env timeout (ok p) =
      Option.map (λ r. exchange_outcome false r.phases) (run (udp_exchange t p) env timeout)

  -- `udpProber.Probe`; `none` is a panic.
  unfoldable pub probe_udp : Target → Env → ℕ → Option Outcome
  unfolding probe_parsed
  probe_udp t env timeout = probe_parsed t env timeout (parse_udp_params t.params)
