-- ===== src/Tls/Tests.antt =====
-- The TLS prober's theorem at a connection whose certificate is for the name that was asked for.
use tunnel_ops.Base.{ℕ, codes, str_eq, true, [], ◌∷◌, none, some, ◌≡◌, ◌↔◌, if◌then◌else◌}
use tunnel_ops.Samples.{nanos, target_of}
use tunnel_ops.Target.{Result}
use tunnel_ops.Outcome.Expected.{expected, to_result-expected}
use tunnel_ops.Tls.{TlsEnv, tls_conn, Certificate, ConnectionState, probe_tls, effective_sni}
use tunnel_ops.Tls.Laws.{Shook, Covers, probe_tls-healthy_iff}

abbrev leaf : Certificate
leaf = record {
  common_name = codes "example.org";
  verify_hostname = λ name. if str_eq name (codes "192.0.2.1") then none else some (codes "x509");
}

abbrev env : TlsEnv
env = record {
  split_host = some (codes "192.0.2.1");
  start = 0;
  tcp_error = none;
  dialled = 20;
  restarted = 21;
  tls_dial =
      tls_conn
        (record { version = 0x0304; negotiated_protocol = []; peer_certificates = leaf ∷ [] });
  shaken = 60;
}

abbrev shown : Result ℕ
shown = expected nanos (target_of "edge") (probe_tls (target_of "edge") env)

probe_tls-healthy_iff_example :
    ((shown.ok ≡ true) ↔ ((state : ConnectionState) × Shook env state))
    × ((shown.cert_match ≡ some true) ↔ (
        (state : ConnectionState) × Shook env state
        × Covers state.peer_certificates (effective_sni (target_of "edge") env)))
    × (shown.sni ≡ effective_sni (target_of "edge") env)
probe_tls-healthy_iff_example =
    probe_tls-healthy_iff nanos (target_of "edge") env shown
      (to_result-expected nanos (target_of "edge") (probe_tls (target_of "edge") env))
