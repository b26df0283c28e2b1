-- ===== src/Report.antt =====
-- cmd/nodecheck/main.go: `writeProm`, `labels`, `escapeLabel` and `boolToInt`. The writer is the text
-- that has been written.
pub mod Escape
pub mod Lines
mod Tests
use tunnel_ops.Base.{
  ℕ, ◌==◌, Str, codes, decimal, Bool, true, false, List, [], ◌∷◌, ◌++◌, Option, none, some,
  if◌then◌else◌,
}
use tunnel_ops.Target.{Floating, Result}

-- `strings.ReplaceAll` of a text of one byte.
unfoldable pub replace_all : Str → ℕ → Str → Str
replace_all [] old new = []
replace_all (b ∷ bs) old new =
    let rest = replace_all bs old new in if b == old then new ++ rest else b ∷ rest

abbrev pub backslash : ℕ
backslash = 92

abbrev pub double_quote : ℕ
double_quote = 34

abbrev pub newline : ℕ
newline = 10

unfoldable pub escape_label : Str → Str
unfolding replace_all
escape_label s =
    let s₁ = replace_all s backslash (backslash ∷ backslash ∷ []) in
    let s₂ = replace_all s₁ double_quote (backslash ∷ double_quote ∷ []) in
    replace_all s₂ newline (backslash ∷ b'n' ∷ [])

abbrev pub bool_to_int : Bool → ℕ
bool_to_int true = 1
bool_to_int false = 0

-- The HELP and TYPE lines of a family, and its samples behind them.
unfoldable pub family : Str → Str → Str → Str
family name help samples =
    codes "# HELP "
    ++ name
    ++ codes " "
    ++ help
    ++ newline ∷ []
    ++ (codes "# TYPE " ++ name ++ codes " gauge" ++ newline ∷ [] ++ samples)

abbrev pub up_name : Str
up_name = codes "vpnnode_up"

abbrev pub up_help : Str
up_help = codes "Node is reachable (both TCP and TLS succeeded)"

abbrev pub tcp_name : Str
tcp_name = codes "vpnnode_tcp_connect_seconds"

abbrev pub tcp_help : Str
tcp_help = codes "Time spent on the TCP connect phase"

abbrev pub tls_name : Str
tls_name = codes "vpnnode_tls_handshake_seconds"

abbrev pub tls_help : Str
tls_help = codes "Time spent on the TLS handshake phase"

abbrev pub cert_name : Str
cert_name = codes "vpnnode_cert_match"

abbrev pub cert_help : Str
cert_help = codes "Presented certificate matches the expected SNI"

abbrev pub sent_name : Str
sent_name = codes "vpnnode_initiation_sent"

abbrev pub sent_help : Str
sent_help = codes "A valid protocol initiation was sent and not contradicted; not a liveness signal"

module _ (fl : Floating) where
  open fl use {Float64, fixed4}

  unfoldable pub labels : Result Float64 → Str
  labels r =
      codes "node=\""
      ++ escape_label r.name
      ++ codes "\",region=\""
      ++ escape_label r.region
      ++ codes "\""

  -- "name{labels} value\n"
  unfoldable pub sample : Str → Result Float64 → Str → Str
  unfolding labels
  sample name r value = name ++ codes "{" ++ labels r ++ codes "} " ++ value ++ newline ∷ []

  -- The loops over the results, one for each family.
  unfoldable pub up_samples : List (Result Float64) → Str
  up_samples [] = []
  up_samples (r ∷ rs) =
      if r.no_liveness_claim
      then up_samples rs
      else sample up_name r (decimal (bool_to_int r.ok)) ++ up_samples rs

  timed : Str → Result Float64 → Option Float64 → Str
  timed name r none = []
  timed name r (some t) = sample name r (fixed4 t)

  unfoldable pub tcp_samples : List (Result Float64) → Str
  unfolding timed
  tcp_samples [] = []
  tcp_samples (r ∷ rs) = timed tcp_name r r.tcp_time ++ tcp_samples rs

  unfoldable pub tls_samples : List (Result Float64) → Str
  unfolding timed
  tls_samples [] = []
  tls_samples (r ∷ rs) = timed tls_name r r.tls_time ++ tls_samples rs

  matching : Result Float64 → Option Bool → Str
  matching r none = []
  matching r (some b) = sample cert_name r (decimal (bool_to_int b))

  unfoldable pub cert_samples : List (Result Float64) → Str
  unfolding matching
  cert_samples [] = []
  cert_samples (r ∷ rs) = matching r r.cert_match ++ cert_samples rs

  unfoldable pub initiation_samples : List (Result Float64) → Str
  initiation_samples [] = []
  initiation_samples (r ∷ rs) =
      if r.no_liveness_claim
      then sample sent_name r (decimal (bool_to_int r.ok)) ++ initiation_samples rs
      else initiation_samples rs

  unfoldable pub write_prom : List (Result Float64) → Str
  unfolding up_samples tcp_samples tls_samples cert_samples initiation_samples
  write_prom rs =
      family up_name up_help (up_samples rs)
      ++ (family tcp_name tcp_help (tcp_samples rs)
          ++ (family tls_name tls_help (tls_samples rs)
              ++ (family cert_name cert_help (cert_samples rs)
                  ++ family sent_name sent_help (initiation_samples rs))))
