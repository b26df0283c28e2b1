-- ===== src/Push.antt =====
-- cmd/nodecheck/push.go: the payload and the identifier of a run. Floating-point numbers are a
-- parameter. A `time.Time` is the number of nanoseconds since the zero time.
pub mod Delivery
pub mod Identifier
pub mod Laws
mod Tests
use mathlib.Core.Option
use Prim.Native.Nat.{bit_and, bit_or}
use tunnel_ops.Base.{
  ℕ, zero, suc, Str, codes, hexadecimal, padded, is_some, Bool, true, false, ◌&&◌, List, [], ◌∷◌,
  ◌++◌, Option, none, some, if◌then◌else◌, Except, ok, err, take, drop, concat, map,
}
use tunnel_ops.Target.{Floating, Result}

pub record PushNode : Type 0 where
  pub name : Str
  pub addr : Str
  pub sni : Str
  pub provider : Str

pub record PushResult (Float64 : Type 0) : Type 0 where
  pub node : PushNode
  pub ts : ℕ
  pub tcp_ok : Bool
  pub tls_ok : Bool
  pub latency_ms : Option Float64
  pub error : Str
  pub failed_phase : Str

pub record PushPayload (Float64 : Type 0) : Type 0 where
  pub run_id : Str
  pub source : Str
  pub started_at : ℕ
  pub results : List (PushResult Float64)

-- `b[i] = f(b[i])`
abbrev assign : ℕ → (ℕ → ℕ) → Str → Str
assign i f [] = []
assign zero f (b ∷ bs) = f b ∷ bs
assign (suc i) f (b ∷ bs) = b ∷ assign i f bs

-- `%x` of a byte slice: two digits for each byte.
abbrev hex : Str → Str
hex bs = concat (map (λ b. padded 2 (hexadecimal b)) bs)

-- `b[i:j]`
abbrev between : ℕ → ℕ → Str → Str
between i j bs = drop i (take j bs)

-- `newUUIDv4`, given the sixteen bytes that the random source fills in, or its error.
unfoldable pub new_uuid_v4 : Except Str → Except Str
new_uuid_v4 (err e) = err (codes "generating run id: " ++ e)
new_uuid_v4 (ok random) =
    let b₁ = assign 6 (λ b. bit_or (bit_and b 0x0f) 0x40) random in
    let b = assign 8 (λ b. bit_or (bit_and b 0x3f) 0x80) b₁ in
    ok (
      hex (between 0 4 b)
      ++ codes "-"
      ++ hex (between 4 6 b)
      ++ codes "-"
      ++ hex (between 6 8 b)
      ++ codes "-"
      ++ hex (between 8 10 b)
      ++ codes "-"
      ++ hex (between 10 16 b))

-- `p == nil || !*p`
abbrev absent_or_false : Option Bool → Bool
absent_or_false none = true
absent_or_false (some true) = false
absent_or_false (some false) = true

infixl 5 ◌>>=?◌
abbrev ◌>>=?◌ {ℓ κ} : {A : Type ℓ} {B : Type κ} → Option A → (A → Option B) → Option B
none >>=? f = none
some a >>=? f = f a

module _ (fl : Floating) where
  open fl use {Float64, times_1000}

  unfoldable pub failed_phase : Result Float64 → Str
  failed_phase r =
      if absent_or_false r.tcp_ok
      then codes "tcp"
      else if absent_or_false r.tls_ok
      then codes "tls"
      else []

  unfoldable pub pushable : Result Float64 → Bool
  pushable r = is_some r.tcp_ok && is_some r.tls_ok

  abbrev pub latency : Bool → Option Float64 → Option Float64
  latency tls_ok none = none
  latency tls_ok (some t) = if tls_ok then some (times_1000 t) else none

  -- The value of the `pushResult`, with what the two pointers point to.
  abbrev pub carried : Result Float64 → Bool → Bool → PushResult Float64
  carried r tcp_ok tls_ok = record {
    node = record { name = r.name; addr = r.addr; sni = r.sni; provider = r.provider };
    ts = r.timestamp;
    tcp_ok = tcp_ok;
    tls_ok = tls_ok;
    latency_ms = latency tls_ok r.tls_time;
    error = r.error;
    failed_phase = failed_phase r;
  }

  -- The body of the loop; `none` is the panic on a nil pointer.
  push_result : Result Float64 → Option (PushResult Float64)
  push_result r = r.tcp_ok >>=? λ tcp_ok. r.tls_ok >>=? λ tls_ok. some (carried r tcp_ok tls_ok)

  push_all : List (Result Float64) → Option (List (PushResult Float64))
  unfolding push_result pushable
  push_all [] = some []
  push_all (r ∷ rs) =
      if pushable r
      then (push_result r >>=? λ pr. Option.map (◌∷◌ pr) (push_all rs))
      else push_all rs

  unfoldable pub build_payload :
      Str → Str → ℕ → List (Result Float64) → Option (PushPayload Float64)
  unfolding push_all
  build_payload run_id source started_at results =
      Option.map
        (λ out. record { run_id = run_id; source = source; started_at = started_at; results = out })
        (push_all results)
