-- ===== src/Prober/Tests.antt =====
-- The theorems on the registry and on a whole probe, at a target of the default protocol.
use tunnel_ops.Base.{ℕ, true, some, ◌≡◌}
use tunnel_ops.Samples.{target_of}
use tunnel_ops.Samples.Offline.{env, runtime}
use tunnel_ops.Target.{Result}
use tunnel_ops.Prober.{probe}
use tunnel_ops.Prober.Laws.{built_in, probers_lem, Describes, Silent, probe-Describes}

probe-Describes_example :
    (r : Result ℕ) × (probe runtime built_in (target_of "edge") env 30 ≡ some r)
    × Describes runtime r (target_of "edge")
    × (r.no_liveness_claim ≡ true → Silent runtime (target_of "edge"))
probe-Describes_example = probe-Describes runtime built_in (target_of "edge") env 30 probers_lem
