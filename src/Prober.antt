-- ===== src/Prober.antt =====
-- cmd/nodecheck/prober.go: the registry of probers, and `probe`. A prober is one of three, so that
-- the interface is a data type, and its methods dispatch on the constructor.
pub mod Laws
pub mod Phases
mod Tests
use mathlib.Core.Option
use tunnel_ops.Base.{
  ℕ, Str, codes, str_eq, str_lt, is_empty, List, [], ◌∷◌, ◌++◌, map, Option, none, some,
  if◌then◌else◌, is_some, Except, ok, err,
}
use tunnel_ops.Target.{Floating, Target, Result, new_result}
use tunnel_ops.Outcome.{Outcome, to_result, ◌>>=◌}
use tunnel_ops.Tls.{TlsEnv, validate_tls, probe_tls}
use tunnel_ops.Udp.{UdpParams, validate_udp, probe_udp}
use tunnel_ops.Udp.Exchange.{Env}
use tunnel_ops.WireGuard.{Setting, WgEnv, validate_wg, probe_wg}
use tunnel_ops.WireGuard.Primitives.{Crypto}

pub data Prober : Type 0 where
  tls udp wireguard : Prober

-- `Kind`
abbrev pub kind : Prober → Str
kind tls = codes "tls"
kind udp = codes "udp"
kind wireguard = codes "wireguard"

abbrev pub default_proto : Str
default_proto = codes "tls"

abbrev pub Registry : Type 0
Registry = List (Str × Prober)

unfoldable pub lookup : Str → Registry → Option Prober
lookup k [] = none
lookup k ((j, p) ∷ ps) = if str_eq j k then some p else lookup k ps

-- `none` is the panic on a duplicate kind.
unfoldable pub register : Prober → Registry → Option Registry
unfolding lookup
register p ps = if is_some (lookup (kind p) ps) then none else some ((kind p, p) ∷ ps)

-- The `init` functions, in the order of the files that hold them.
unfoldable pub probers : Option Registry
unfolding register
probers = do ps₁ ← register tls []; ps₂ ← register udp ps₁; register wireguard ps₂

-- `sort.Strings`
insert_sorted : Str → List Str → List Str
insert_sorted s [] = s ∷ []
insert_sorted s (t ∷ ts) = if str_lt t s then t ∷ insert_sorted s ts else s ∷ t ∷ ts

unfoldable pub sort_strings : List Str → List Str
unfolding insert_sorted
sort_strings [] = []
sort_strings (s ∷ ss) = insert_sorted s (sort_strings ss)

unfoldable pub prober_kinds : Registry → List Str
unfolding sort_strings
prober_kinds ps = sort_strings (map (λ e. e.0) ps)

-- `%v` of a slice of strings.
abbrev spaced : List Str → Str
spaced [] = []
spaced (s ∷ []) = s
spaced (s ∷ t ∷ ts) = s ++ codes " " ++ spaced (t ∷ ts)

abbrev pub or_default : Str → Str
or_default k = if is_empty k then default_proto else k

found : Option Prober → Str → Except Prober
found none e = err e
found (some p) e = ok p

-- What the process is given: the numbers, strconv.Quote, the decoders and the setting of WireGuard.
pub record Runtime : Type 1 where
  pub floating : Floating
  pub quote : Str → Str
  pub decode_udp : Str → Except UdpParams
  pub decode_hex : Str → Except Str
  pub setting : Setting

-- What one probe is answered, whichever prober makes it.
pub record ProbeEnv (s : Setting) : Type 0 where
  pub tls_env : TlsEnv
  pub udp_env : Env
  pub wg_env : WgEnv (Setting.crypto s)

module _ (rt : Runtime) where
  open rt use {floating, quote, decode_udp, decode_hex, setting}

  unfoldable pub prober_for : Registry → Target → Except Prober
  unfolding lookup found prober_kinds
  prober_for ps t = found (lookup (or_default t.proto) ps) (
      codes "unknown proto "
      ++ quote (or_default t.proto)
      ++ codes " (known: ["
      ++ spaced (prober_kinds ps)
      ++ codes "])")

  -- `Validate`, with the key that an anonymous identity would generate.
  unfoldable pub validate : Prober → Target → Except (Crypto.PrivateKey setting.crypto) → Option Str
  validate tls t generated = validate_tls t
  validate udp t generated = validate_udp decode_udp decode_hex t
  validate wireguard t generated = validate_wg setting t generated

  -- `Probe`, with the answers of the system; `none` is a panic.
  unfoldable pub run_prober : Prober → Target → ProbeEnv setting → ℕ → Option Outcome
  run_prober tls t env timeout = some (probe_tls t env.tls_env)
  run_prober udp t env timeout = probe_udp decode_udp decode_hex t env.udp_env timeout
  run_prober wireguard t env timeout = probe_wg setting t env.wg_env timeout

  probe_with :
      Target → ProbeEnv setting → ℕ → Except Prober → Option (Result (Floating.Float64 floating))
  unfolding run_prober
  probe_with t env timeout (err e) = some (record (new_result t) { error = codes "config: " ++ e })
  probe_with t env timeout (ok p) = run_prober p t env timeout >>= to_result floating t

  -- `probe`
  unfoldable pub probe :
      Registry → Target → ProbeEnv setting → ℕ → Option (Result (Floating.Float64 floating))
  unfolding probe_with prober_for
  probe ps t env timeout = probe_with t env timeout (prober_for ps t)
