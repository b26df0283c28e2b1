-- ===== src/Udp/Tests.antt =====
-- The UDP prober's theorems at concrete exchanges, after prober_udp_test.go.
use tunnel_ops.Base.{
  ℕ, Str, codes, true, false, [], ◌∷◌, none, some, Except, ok, err, ◌≡◌, ◌≢◌, refl, ◌⊎◌, ◌↔◌, arith,
  if◌then◌else◌, ◌==◌,
}
use tunnel_ops.Base.Int.{pos}
use tunnel_ops.Target.{Target}
use tunnel_ops.Samples.{target_of}
use tunnel_ops.Outcome.{Phase}
use tunnel_ops.Udp.{UdpParams, parse_udp_params, validate_udp}
use tunnel_ops.Udp.Laws.{Reads, Asks, Allows, parse_udp_params_iff}
use tunnel_ops.Udp.Exchange.{UdpExchange, Attempt, Env, Exchanged, datagram, read_error, run}
use tunnel_ops.Udp.Exchange.Course.{accepted, again, taken, Waits, Quiet}
use tunnel_ops.Udp.Exchange.Response.{TheCourse, Responds, run_not_set_up, run_response}
use tunnel_ops.Udp.Exchange.Limits.{Closes, run_limits}
use tunnel_ops.Udp.Exchange.Stale.{passed_with_error}

abbrev timed_out : Str
timed_out = codes "i/o timeout"

abbrev pong : Str
pong = codes "pong"

-- Nobody answers the first datagram; every later one is answered.
abbrev lossy : ℕ → Attempt
lossy i = record {
  write_error = none;
  now = 12;
  deadline_error = none;
  answer = if i == 0 then read_error timed_out true else datagram pong;
  cancelled = false;
  after = 22;
}

abbrev network : Env
network = record {
  start = 0;
  dial_error = none;
  dialled = 1;
  before_write = 2;
  write_deadline_error = none;
  write_error = none;
  set_up = 3;
  waiting_from = 10;
  ctx_deadline = none;
  restarted = 4;
  attempt = lossy;
  finished = 25;
}

abbrev no_route : Env
no_route = record network { dial_error = some (codes "no route to host") }

abbrev exchange : UdpExchange
exchange = record {
  addr = codes "192.0.2.1:53";
  payload = codes "ping";
  attempts = 3;
  send_phase = codes "udp";
  resp_phase = codes "response";
  accept = none;
  silence_ok = false;
}

unanswered : Quiet exchange 40 0 (lossy 0)
unanswered = (((λ h. refl), refl), (timed_out, refl), refl)

resent : Waits exchange 40 1 (lossy 1)
resent = ((λ h. refl), refl)

lossy-Course : TheCourse exchange network 30 (accepted pong)
lossy-Course = again unanswered (omega arith) (taken pong resent refl refl)

run_response_example : Responds exchange network 30 (accepted pong)
run_response_example =
    run_response exchange network 30 (accepted pong) refl (omega arith) lossy-Course

run_not_set_up_example :
    (r : Exchanged) × (run exchange no_route 30 ≡ some r)
    × ((d : ℕ) × (r.phases
          ≡ record { name = codes "udp"; ok = false; duration = d; err = codes "no route to host" }
            ∷ []))
    × (r.reply ≡ [])
run_not_set_up_example = run_not_set_up exchange no_route 30 (codes "no route to host") refl

run_limits_example :
    (r : Exchanged) × (run exchange network 30 ≡ some r)
    × (((network.dial_error ≢ none) × (r.log ≡ []))
        ⊎ ((network.dial_error ≡ none) × Closes exchange network 30 r.log))
run_limits_example = run_limits exchange network 30 (omega arith)

passed_with_error_example :
    (r : Exchanged) × (sent resp : Phase) × (run exchange network 30 ≡ some r)
    × (r.phases ≡ sent ∷ resp ∷ [])
    × (resp.ok ≡ true)
    × (resp.err ≡ timed_out)
passed_with_error_example =
    passed_with_error exchange network 30 timed_out pong 1 refl refl unanswered refl (omega arith)
      resent refl refl

-- A decoder that knows one object.
abbrev settings : UdpParams
settings = record { payload = codes "ping"; payload_hex = []; attempts = pos 5 }

abbrev decode : Str → Except UdpParams
decode raw = ok settings

abbrev decode_hex : Str → Except Str
decode_hex s = err (codes "encoding/hex: invalid byte")

abbrev raw : Str
raw = codes "{\"payload\":\"ping\",\"attempts\":5}"

abbrev target : Target
target = record (target_of "dns") { proto = codes "udp"; params = raw }

parse_udp_params_iff_example : (parse_udp_params decode decode_hex raw ≡ ok (codes "ping", 5)) ↔ (
    (p : UdpParams) × Reads decode decode_hex raw p
    × Asks decode decode_hex p.payload p.payload_hex (codes "ping")
    × Allows p.attempts 5)
parse_udp_params_iff_example = parse_udp_params_iff decode decode_hex raw (codes "ping") 5

target_valid : validate_udp decode decode_hex target ≡ none
unfolding validate_udp parse_udp_params
target_valid = refl
