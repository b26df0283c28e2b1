-- ===== src/Tls.antt =====
-- cmd/nodecheck/prober_tls.go, and `tlsVersionName` of main.go. What the network, the TLS library and
-- net.SplitHostPort answer is an argument.
pub mod Laws
mod Tests
use tunnel_ops.Base.{
  ℕ, ◌-◌, Str, codes, hexadecimal, padded, is_empty, true, false, List, [], ◌∷◌, ◌++◌, Option, none,
  some, if◌then◌else◌, ◌==◌, is_some, not,
}
use tunnel_ops.Target.{Target}
use tunnel_ops.Outcome.{Phase, TlsInfo, Outcome, phase_tcp, phase_tls}

unfoldable pub tls_version_name : ℕ → Str
tls_version_name v =
    if v == 0x0304
    then codes "1.3"
    else if v == 0x0303
    then codes "1.2"
    else codes "0x" ++ padded 4 (hexadecimal v)

-- A certificate of the peer: its common name, and the error of `VerifyHostname`, if any.
pub record Certificate : Type 0 where
  pub common_name : Str
  pub verify_hostname : Str → Option Str

pub record ConnectionState : Type 0 where
  pub version : ℕ
  pub negotiated_protocol : Str
  pub peer_certificates : List Certificate

-- What dialling with TLS gives: an error, a connection of another type, or one of TLS.
pub data TlsDial : Type 0 where
  dial_error : Str → TlsDial
  other_conn : TlsDial
  tls_conn : ConnectionState → TlsDial

pub record TlsEnv : Type 0 where
  -- The host that `net.SplitHostPort` finds in the address, or `none` for its error.
  pub split_host : Option Str
  pub start : ℕ
  pub tcp_error : Option Str
  pub dialled : ℕ
  pub restarted : ℕ
  pub tls_dial : TlsDial
  pub shaken : ℕ

-- `tlsProber.Validate`: an error's text, or `none`.
unfoldable pub validate_tls : Target → Option Str
validate_tls t = if is_empty t.addr then some (codes "addr is required") else none

-- The name that is asked for: the configured one, or else the host of the address.
unfoldable pub effective_sni : Target → TlsEnv → Str
effective_sni t env =
    if is_empty t.sni then elim env.split_host [ none ↦ t.sni | some host ↦ host ] else t.sni

abbrev pub named : Str → TlsInfo
named sni = record { server_name = sni; version = []; alpn = []; cert_cn = []; cert_match = false }

-- The `if len(state.PeerCertificates) > 0` statement.
unfoldable pub inspect_leaf : List Certificate → TlsInfo → TlsInfo
inspect_leaf [] info = info
inspect_leaf (leaf ∷ chain) info = record info {
  cert_cn = leaf.common_name;
  cert_match = not (is_some (leaf.verify_hostname info.server_name));
}

abbrev pub passed : Str → ℕ → Phase
passed name d = record { name = name; ok = true; duration = d; err = [] }

abbrev pub failed_with : Str → ℕ → Str → Phase
failed_with name d e = record { name = name; ok = false; duration = d; err = e }

-- The phases and the details, in the order in which the code fills them in.
abbrev pub outcome : List Phase → TlsInfo → Outcome
outcome phases info = record { phases = phases; tls = some info; no_liveness_claim = false }

-- The second phase, after a first one of a given length.
unfoldable pub handshake : TlsEnv → Str → TlsDial → Outcome
unfolding inspect_leaf
handshake env sni (dial_error e) =
    outcome
      (passed phase_tcp (env.dialled - env.start)
        ∷ failed_with phase_tls (env.shaken - env.restarted) e
        ∷ [])
      (named sni)
handshake env sni other_conn =
    outcome
      (passed phase_tcp (env.dialled - env.start)
        ∷ failed_with phase_tls (env.shaken - env.restarted) (codes "unexpected connection type")
        ∷ [])
      (named sni)
handshake env sni (tls_conn state) =
    outcome
      (passed phase_tcp (env.dialled - env.start)
        ∷ passed phase_tls (env.shaken - env.restarted)
        ∷ [])
      (inspect_leaf state.peer_certificates (record (named sni) {
        version = tls_version_name state.version;
        alpn = state.negotiated_protocol;
      }))

unfoldable pub connect : TlsEnv → Str → Option Str → Outcome
unfolding handshake
connect env sni (some e) =
    outcome (failed_with phase_tcp (env.dialled - env.start) e ∷ []) (named sni)
connect env sni none = handshake env sni env.tls_dial

-- `tlsProber.Probe`
unfoldable pub probe_tls : Target → TlsEnv → Outcome
unfolding connect effective_sni
probe_tls t env = connect env (effective_sni t env) env.tcp_error
