-- ===== src/Outcome/Tests.antt =====
-- Tests of the projection, after golden_test.go, and the theorems at concrete outcomes.
use tunnel_ops.Base.{ℕ, codes, str_eq, true, false, some, [], ◌∷◌, ◌≡◌, refl}
use tunnel_ops.Samples.{nanos, target_of}
use tunnel_ops.Target.{Result}
use tunnel_ops.Outcome.{Outcome, phase_tcp, phase_tls, to_result}
use tunnel_ops.Outcome.Expected.{expected, to_result-expected}

abbrev masked : Outcome
masked = record {
  phases =
      record { name = phase_tcp; ok = true; duration = 24; err = [] }
      ∷ record { name = phase_tls; ok = false; duration = 191; err = codes "remote error" }
      ∷ [];
  tls = some (record {
    server_name = codes "www.cloudflare.com";
    version = [];
    alpn = [];
    cert_cn = [];
    cert_match = false;
  });
  no_liveness_claim = false;
}

abbrev masked_result : Result ℕ
masked_result = expected nanos (target_of "nl-ams-01") masked

masked_projected : to_result nanos (target_of "nl-ams-01") masked ≡ some masked_result
unfolding to_result str_eq
masked_projected = refl

to_result-expected_example : to_result nanos (target_of "nl-ams-01") masked ≡ some masked_result
to_result-expected_example = to_result-expected nanos (target_of "nl-ams-01") masked

masked_fields :
    (masked_result.error ≡ codes "tls: remote error")
    × (masked_result.tcp_ok ≡ some true)
    × (masked_result.tls_ok ≡ some false)
    × (masked_result.tls_time ≡ some 191)
    × (masked_result.sni ≡ codes "www.cloudflare.com")
unfolding str_eq
masked_fields = (refl, refl, refl, refl, refl)
