-- ===== src/Push/Tests.antt =====
-- The push's theorems at concrete batches, after push_test.go.
use tunnel_ops.Base.{
  ℕ, ◌==◌, Str, codes, padded, hexadecimal, true, List, [], ◌∷◌, none, some, ok, ◌≡◌, refl, ◌↔◌,
  if◌then◌else◌, arith,
}
use tunnel_ops.Samples.{nanos, target_of}
use tunnel_ops.Target.{Result, new_result}
use tunnel_ops.Outcome.Expected.{expected}
use tunnel_ops.Tls.{TlsEnv, dial_error, probe_tls}
use tunnel_ops.Push.Identifier.{read_uuid, version_4}
use tunnel_ops.Push.Identifier.Laws.{new_uuid_v4-read_uuid}
use tunnel_ops.Push.{new_uuid_v4}
use tunnel_ops.Push.Delivery.{Round, no_response, response, push_results, backoff}
use tunnel_ops.Push.Delivery.Laws.{Delivers, push_results-none_iff}
use tunnel_ops.Push.Delivery.Requests.{Repeats, GivesUp, push_results-Repeats}

abbrev over_udp : Result ℕ
over_udp = record (new_result (target_of "dns")) { ok = true }

abbrev over_tls : Result ℕ
over_tls = record (new_result (target_of "edge")) {
  ok = true;
  tcp_ok = some true;
  tls_ok = some true;
  tcp_time = some 24;
  tls_time = some 191;
}

abbrev results : List (Result ℕ)
results = over_udp ∷ over_tls ∷ []

-- The connection is made, and the handshake fails.
abbrev env : TlsEnv
env = record {
  split_host = none;
  start = 0;
  tcp_error = none;
  dialled = 20;
  restarted = 21;
  tls_dial = dial_error (codes "EOF");
  shaken = 60;
}

abbrev masked : Result ℕ
masked = expected nanos (target_of "edge") (probe_tls (target_of "edge") env)

abbrev same : Str → Str
same s = s

-- No response at first, and then a 401.
abbrev refused : ℕ → Round
refused i = record {
  cancelled = none;
  answer =
      if i == 0 then no_response (codes "refused") else response 401 (codes "401 Unauthorized") [];
}

abbrev url : Str
url = codes "https://probes.example.com/v1/runs"

refused-GivesUp : GivesUp same url (codes "token") (codes "{}") refused backoff 0 1
refused-GivesUp = (refl, tt, (refl, (omega arith, omega arith)))

push_results-Repeats_example :
    Repeats same url
      (codes "token")
      (codes "{}")
      refused
      3
      (push_results same url (codes "token") (ok (codes "{}")) refused).0
push_results-Repeats_example = push_results-Repeats same url (codes "token") (codes "{}") refused

-- No response twice, and then a 200.
abbrev slow : ℕ → Round
slow i = record {
  cancelled = none;
  answer = if i == 2 then response 200 (codes "200 OK") [] else no_response (codes "refused");
}

push_results-none_iff_example :
    ((push_results same url (codes "token") (ok (codes "{}")) slow).1 ≡ none)
    ↔ Delivers same url (codes "token") (codes "{}") slow backoff 0
push_results-none_iff_example = push_results-none_iff same url (codes "token") (codes "{}") slow

-- The bytes 0 to 15.
abbrev counting : Str
counting = 0 ∷ 1 ∷ 2 ∷ 3 ∷ 4 ∷ 5 ∷ 6 ∷ 7 ∷ 8 ∷ 9 ∷ 10 ∷ 11 ∷ 12 ∷ 13 ∷ 14 ∷ 15 ∷ []

new_uuid_v4-read_uuid_example :
    (id : Str) × (new_uuid_v4 (ok counting) ≡ ok id) × (read_uuid id ≡ some (version_4 counting))
new_uuid_v4-read_uuid_example = new_uuid_v4-read_uuid counting refl (omega arith)

uuid_text : new_uuid_v4 (ok counting) ≡ ok (codes "00010203-0405-4607-8809-0a0b0c0d0e0f")
unfolding new_uuid_v4 padded hexadecimal
uuid_text = refl
