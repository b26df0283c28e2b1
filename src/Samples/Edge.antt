-- ===== src/Samples/Edge.antt =====
-- A healthy probe of a node, in a process that has no keys.
use tunnel_ops.Base.{ℕ, [], none, refl}
use tunnel_ops.Samples.{nanos, target_of}
use tunnel_ops.Samples.Offline
use tunnel_ops.Samples.Offline.{runtime, setting}
use tunnel_ops.Target.{Target, Result}
use tunnel_ops.Outcome.Expected.{expected}
use tunnel_ops.Tls.{tls_conn, probe_tls}
use tunnel_ops.Prober.{ProbeEnv, tls, run_prober}
use tunnel_ops.Prober.Laws.{built_in, probers_lem, prober_for_iff, probe-expected}
use tunnel_ops.RunAll.Probes.{Probed}

abbrev pub answering : ProbeEnv setting
answering = record Offline.env {
  tls_env = record (ProbeEnv.tls_env Offline.env) {
    tcp_error = none;
    tls_dial =
        tls_conn (record { version = 0x0304; negotiated_protocol = []; peer_certificates = [] });
  };
}

abbrev pub edge : Target
edge = target_of "edge"

abbrev pub found : Result ℕ
found = expected nanos edge (probe_tls edge (ProbeEnv.tls_env answering))

abbrev pub sent : Result ℕ
sent = record found { timestamp = 9000500 }

pub probed : (timeout : ℕ) → Probed runtime built_in timeout edge sent
unfolding run_prober
probed timeout =
    let resolved = (prober_for_iff runtime built_in edge tls probers_lem).1 refl in
    (
      answering,
      9000500,
      found,
      probe-expected runtime built_in edge answering timeout tls _ resolved refl,
      refl,
    )
