-- ===== src/Loading/Tests.antt =====
-- `loadTargets` at a file of one target of the default protocol.
use tunnel_ops.Base.{
  ℕ, Str, str_eq, codes, List, [], ◌∷◌, All, Except, ok, true, refl, ◌≡◌, ◌≢◌, ◌↔◌,
}
use tunnel_ops.Samples.{target_of}
use tunnel_ops.Samples.Offline.{keyless, setting, runtime}
use tunnel_ops.Target.{Target}
use tunnel_ops.Prober.Laws.{built_in}
use tunnel_ops.Base.{replicate}
use tunnel_ops.Base.Int.{pos}
use tunnel_ops.Udp.{validate_udp}
use tunnel_ops.WireGuard.{WgParams, validate_wg}
use tunnel_ops.Prober.{Runtime, prober_for, validate}
use tunnel_ops.Tls.{validate_tls}
use tunnel_ops.Loading.{load_targets}
use tunnel_ops.Loading.Ready.{Ready, load_targets-Ready}
use tunnel_ops.Loading.Laws.{AllValid, load_targets_iff}

abbrev listed : List Target
listed = target_of "edge" ∷ []

abbrev unmarshal : Str → Except (List Target)
unmarshal text = ok listed

abbrev generated : ℕ → Except ℕ
generated i = ok i

load_targets_iff_example :
    (load_targets runtime unmarshal generated built_in (codes "targets.json") (ok (codes "[]"))
      ≡ ok listed)
    ↔ ((text : Str) × (ok (codes "[]") ≡ ok text)
        × (unmarshal text ≡ ok listed)
        × (listed ≢ [])
        × AllValid runtime unmarshal generated built_in 0 listed)
load_targets_iff_example =
    load_targets_iff runtime unmarshal generated built_in (codes "targets.json") (ok (codes "[]"))
      listed

-- Decoders that take any parameters, and keys of which each is valid.
abbrev params : WgParams
params = record { public_key = codes "key"; attempts = pos 2; allow_anonymous = true }

abbrev lenient : Runtime
lenient = record runtime {
  decode_udp = λ raw. ok (record { payload = codes "ping"; payload_hex = []; attempts = pos 3 });
  setting = record setting {
    crypto = record keyless { new_public_key = λ s. ok 3 };
    decode = λ raw. ok params;
    base64 = λ s. ok (replicate 32 7);
  };
}

abbrev with_proto : Str → Target
with_proto proto = record (target_of "edge") { proto = proto; params = codes "{}" }

abbrev mixed : List Target
mixed = target_of "edge" ∷ with_proto (codes "udp") ∷ with_proto (codes "wireguard") ∷ []

mixed_loaded :
    load_targets lenient
      (λ text. ok mixed)
      generated
      built_in
      (codes "targets.json")
      (ok (codes "[]"))
    ≡ ok mixed
unfolding load_targets prober_for str_eq validate validate_tls validate_udp validate_wg
mixed_loaded = refl

load_targets-Ready_example : All (Ready lenient built_in) mixed
load_targets-Ready_example =
    load_targets-Ready lenient (λ text. ok mixed) generated built_in (codes "targets.json")
      (ok (codes "[]")) mixed mixed_loaded
