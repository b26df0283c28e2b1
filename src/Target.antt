-- ===== src/Target.antt =====
-- cmd/nodecheck/main.go: `Target`, `Result` and `phaseJSON`; prober.go: `newResult`.
-- A pointer field is an `Option`, with `none` for nil. Floating-point numbers are Go's, so they are
-- a parameter. Durations are nanoseconds, never negative. A point in time is the number of
-- nanoseconds since the zero `time.Time`, which is 0 here: 1 January of the year 1, UTC.
use tunnel_ops.Base.{ℕ, Str, Bool, false, Option, none, List, []}

-- `float64`, as far as the program computes with it.
pub record Floating : Type 1 where
  pub Float64 : Type 0
  -- The constant 0.0.
  pub zero_float : Float64
  -- `time.Duration.Seconds`
  pub seconds : ℕ → Float64
  -- `x * 1000`
  pub times_1000 : Float64 → Float64
  -- `fmt.Sprintf("%.4f", x)`
  pub fixed4 : Float64 → Str

pub record Target : Type 0 where
  pub name : Str
  pub addr : Str
  pub sni : Str
  pub region : Str
  pub provider : Str
  pub proto : Str
  -- `json.RawMessage`: its bytes, none of them where the key is absent.
  pub params : Str

pub record PhaseJson (Float64 : Type 0) : Type 0 where
  pub name : Str
  pub ok : Bool
  pub seconds : Float64
  pub error : Str

pub record Result (Float64 : Type 0) : Type 0 where
  pub target : Target
  pub open target use *
  pub ok : Bool
  pub tcp_ok : Option Bool
  pub tls_ok : Option Bool
  pub timestamp : ℕ
  pub tcp_time : Option Float64
  pub tls_time : Option Float64
  pub tls_ver : Str
  pub alpn : Str
  pub cert_cn : Str
  pub cert_match : Option Bool
  pub error : Str
  pub phases : List (PhaseJson Float64)
  pub no_liveness_claim : Bool

-- Params are stripped; every other field has its zero value.
unfoldable pub new_result : {Float64 : Type 0} → Target → Result Float64
new_result t = record {
  target = record t { params = [] };
  ok = false;
  tcp_ok = none;
  tls_ok = none;
  timestamp = 0;
  tcp_time = none;
  tls_time = none;
  tls_ver = [];
  alpn = [];
  cert_cn = [];
  cert_match = none;
  error = [];
  phases = [];
  no_liveness_claim = false;
}
