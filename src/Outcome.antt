-- ===== src/Outcome.antt =====
-- cmd/nodecheck/prober.go: `Phase`, `TLSInfo`, `Outcome` and the projection of an outcome onto a
-- `Result`. A write through a nil pointer panics, and so the projection is partial: `none`.
pub mod Expected
pub mod Laws
mod Tests
use tunnel_ops.Base.{
  ℕ, Str, codes, str_eq, Bool, true, false, ◌||◌, Option, none, some, List, [], ◌∷◌, ◌++◌, map,
  if◌then◌else◌, is_empty,
}
use tunnel_ops.Target.{Floating, Target, Result, PhaseJson, new_result}

abbrev pub phase_tcp : Str
phase_tcp = codes "tcp"

abbrev pub phase_tls : Str
phase_tls = codes "tls"

pub record Phase : Type 0 where
  pub name : Str
  pub ok : Bool
  pub duration : ℕ
  pub err : Str

pub record TlsInfo : Type 0 where
  pub server_name : Str
  pub version : Str
  pub alpn : Str
  pub cert_cn : Str
  pub cert_match : Bool

pub record Outcome : Type 0 where
  pub phases : List Phase
  pub tls : Option TlsInfo
  pub no_liveness_claim : Bool

first_failing : List Phase → Option Phase
first_failing [] = none
first_failing (ph ∷ phs) = if ph.ok then first_failing phs else some ph

-- `Outcome.failed`
unfoldable pub failed : Outcome → Option Phase
unfolding first_failing
failed o = first_failing o.phases

any_legacy : List Phase → Bool
any_legacy [] = false
any_legacy (ph ∷ phs) =
    if str_eq ph.name phase_tcp || str_eq ph.name phase_tls then true else any_legacy phs

unfoldable pub uses_legacy_phases : Outcome → Bool
unfolding any_legacy
uses_legacy_phases o = any_legacy o.phases

-- `ptr`: a pointer to a fresh copy of the value.
abbrev pub ptr {ℓ} : {A : Type ℓ} → A → Option A
ptr v = some v

-- `*p = v`: the pointer afterwards, `none` in place of it where `p` is nil.
abbrev pub write {ℓ} : {A : Type ℓ} → Option A → A → Option (Option A)
write none v = none
write (some old) v = some (some v)

infixl 5 ◌>>=◌
abbrev pub ◌>>=◌ {ℓ κ} : {A : Type ℓ} {B : Type κ} → Option A → (A → Option B) → Option B
none >>= f = none
some a >>= f = f a

module _ (fl : Floating) where
  open fl use {Float64, zero_float, seconds}

  abbrev pub phase_json : Phase → PhaseJson Float64
  phase_json ph = record {
    name = ph.name;
    ok = ph.ok;
    seconds = seconds ph.duration;
    error = ph.err;
  }

  -- The `if usesLegacyPhases(o)` statement.
  shape : Outcome → Result Float64 → Result Float64
  unfolding uses_legacy_phases
  shape o res =
      if uses_legacy_phases o
      then record res {
        tcp_ok = ptr false;
        tls_ok = ptr false;
        cert_match = ptr false;
        tcp_time = ptr zero_float;
        tls_time = ptr zero_float;
      }
      else record res { phases = map phase_json o.phases }

  -- The two cases of the `switch` on the name.
  case_tcp : Result Float64 → Phase → Option (Result Float64)
  case_tcp res ph = do
    tcp_ok ← write res.tcp_ok ph.ok
    tcp_time ← write res.tcp_time (seconds ph.duration)
    some (record res { tcp_ok = tcp_ok; tcp_time = tcp_time })

  case_tls : Result Float64 → Phase → Option (Result Float64)
  case_tls res ph = do
    tls_ok ← write res.tls_ok ph.ok
    tls_time ← write res.tls_time (seconds ph.duration)
    some (record res { tls_ok = tls_ok; tls_time = tls_time })

  -- One round of the loop over the phases.
  record_phase : Result Float64 → Phase → Option (Result Float64)
  unfolding case_tcp case_tls
  record_phase res ph =
      if str_eq ph.name phase_tcp
      then case_tcp res ph
      else if str_eq ph.name phase_tls
      then case_tls res ph
      else some res

  record_phases : Result Float64 → List Phase → Option (Result Float64)
  record_phases res [] = some res
  record_phases res (ph ∷ phs) = do next ← record_phase res ph; record_phases next phs

  -- `if res.CertMatch != nil { *res.CertMatch = … }`
  abbrev pub overwrite {ℓ} : {A : Type ℓ} → Option A → A → Option A
  overwrite none v = none
  overwrite (some old) v = some v

  -- The `if o.TLS != nil` statement.
  record_tls : Option TlsInfo → Result Float64 → Result Float64
  record_tls none res = res
  record_tls (some info) res = record res {
    target = record res.target {
      sni = if is_empty info.server_name then res.sni else info.server_name;
    };
    tls_ver = info.version;
    alpn = info.alpn;
    cert_cn = info.cert_cn;
    cert_match = overwrite res.cert_match info.cert_match;
  }

  -- `len(o.Phases) > 0`
  abbrev non_empty : List Phase → Bool
  non_empty [] = false
  non_empty (ph ∷ phs) = true

  -- The `if bad := o.failed()` statement.
  conclude : Outcome → Result Float64 → Result Float64
  unfolding failed
  conclude o res = elim (failed o) [
    | some bad ↦ record res { error = bad.name ++ codes ": " ++ bad.err }
    | none ↦ record res { ok = non_empty o.phases }
  ]

  unfoldable pub to_result : Target → Outcome → Option (Result Float64)
  unfolding shape record_phases record_phase record_tls conclude new_result
  to_result t o = do
    let res = record (new_result t) { no_liveness_claim = o.no_liveness_claim }
    res' ← record_phases (shape o res) o.phases
    some (conclude o (record_tls o.tls res'))
