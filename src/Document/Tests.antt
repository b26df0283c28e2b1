-- ===== src/Document/Tests.antt =====
-- Documents of a node that cannot be reached, over TLS.
use tunnel_ops.Base.{ℕ, codes, true, false, [], some, ◌≡◌, refl}
use tunnel_ops.Samples.{nanos, target_of}
use tunnel_ops.Samples.Offline.{runtime, env}
use tunnel_ops.Target.{Target, Result}
use tunnel_ops.Outcome.Expected.{expected}
use tunnel_ops.Tls.{probe_tls}
use tunnel_ops.Prober.{tls, run_prober}
use tunnel_ops.Prober.Laws.{built_in, probers_lem, prober_for_iff, probe-expected}
use tunnel_ops.Prober.Phases.{asks_tls}
use tunnel_ops.Push.{PushResult}
use tunnel_ops.Document.{
  text, number, boolean, time, object, no_fields, field, result_document, push_document,
}
use tunnel_ops.Document.Laws.{HasPhaseKeys, has, result_document-keys}

abbrev edge : Target
edge = record (target_of "edge") { params = codes "{}" }

abbrev unreachable : Result ℕ
unreachable = expected nanos edge (probe_tls edge env.tls_env)

abbrev stamped : Result ℕ
stamped = record unreachable { timestamp = 9 }

result_document-keys_example :
    HasPhaseKeys (result_document stamped) (asks_tls runtime edge)
    × (asks_tls runtime edge ≡ true → has (codes "phases") (result_document stamped) ≡ false)
    × (has (codes "params") (result_document stamped) ≡ false)
unfolding run_prober
result_document-keys_example =
    let resolved = (prober_for_iff runtime built_in edge tls probers_lem).1 refl in
    result_document-keys runtime edge env 30 9 unreachable
      (probe-expected runtime built_in edge env 30 tls (probe_tls edge env.tls_env) resolved refl)

-- A healthy result has neither an error nor a failed phase.
abbrev healthy : PushResult ℕ
healthy = record {
  node = record { name = codes "edge"; addr = codes "a"; sni = codes "s"; provider = [] };
  ts = 9;
  tcp_ok = true;
  tls_ok = true;
  latency_ms = some 42;
  error = [];
  failed_phase = [];
}

healthy_document :
    push_document healthy
    ≡ object (
        field
          (codes "node")
          (object (
            field (codes "name") (text (codes "edge")) (
              field
                (codes "addr")
                (text (codes "a"))
                (field (codes "sni") (text (codes "s")) no_fields))))
          (field (codes "ts") (time 9) (
            field (codes "tcp_ok") (boolean true) (
              field
                (codes "tls_ok")
                (boolean true)
                (field (codes "latency_ms") (number 42) no_fields)))))
unfolding push_document
healthy_document = refl
