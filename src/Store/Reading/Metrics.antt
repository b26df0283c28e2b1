-- ===== src/Store/Reading/Metrics.antt =====
-- GET /metrics of probestore (probestore/app/routers/metrics.py). How a number of seconds is written
-- is a parameter. A time without a zone does not occur: the column has one.
pub mod Distinct
pub mod Exposed
pub mod Lines
pub mod Plain
pub mod Samples
pub mod Series
use tunnel_ops.Base.{
  ℕ, Str, codes, decimal, Bool, true, false, ◌&&◌, List, [], ◌∷◌, ◌++◌, Option, none, some,
}
use tunnel_ops.Report.{replace_all, backslash, double_quote, newline}
use tunnel_ops.Store.{ProbeResult, Database}
use tunnel_ops.Store.Reading.{Node, Selects}

-- `f"{ms / 1000:.6f}"`, and `f"{(now - ts).total_seconds():.1f}"` of two times.
pub record Formats (Float64 : Type 0) : Type 0 where
  pub seconds : Float64 → Str
  pub age : ℕ → ℕ → Str

-- `sep.join(parts)`
abbrev pub join : Str → List Str → Str
join sep [] = []
join sep (p ∷ []) = p
join sep (p ∷ p' ∷ ps) = p ++ (sep ++ join sep (p' ∷ ps))

-- `_escape`
unfoldable pub escape_value : Str → Str
unfolding replace_all
escape_value value =
    let s₁ = replace_all value backslash (backslash ∷ backslash ∷ []) in
    let s₂ = replace_all s₁ double_quote (backslash ∷ double_quote ∷ []) in
    replace_all s₂ newline (backslash ∷ b'n' ∷ [])

-- `provider or ""`
abbrev pub or_empty : Option Str → Str
or_empty none = []
or_empty (some s) = s

-- `key="value"`, the key with the opening quote.
abbrev pub part : Str → Str → Str
part key value = key ++ (escape_value value ++ double_quote ∷ [])

-- `_labels`
unfoldable pub node_labels : Node → Str
node_labels n =
    let parts =
      part (codes "node=\"") n.name
      ∷ part (codes "addr=\"") n.addr
      ∷ part (codes "sni=\"") n.sni
      ∷ part (codes "provider=\"") (or_empty n.provider)
      ∷ [] in
    codes "{" ++ (join (codes ",") parts ++ codes "}")

abbrev pub up_of : Bool → ℕ
up_of true = 1
up_of false = 0

abbrev pub up_name : Str
up_name = codes "nodecheck_node_up"

abbrev pub handshake_name : Str
handshake_name = codes "nodecheck_handshake_seconds"

abbrev pub age_name : Str
age_name = codes "nodecheck_last_check_age_seconds"

abbrev pub line : Str → Node → Str → Str
line name n value = name ++ (node_labels n ++ (codes " " ++ value))

module _ {Float64 : Type 0} (fmt : Formats Float64) (now : ℕ) where
  open fmt use {seconds, age}

  pub up_lines : List (Node × ProbeResult Float64) → List Str
  up_lines [] = []
  up_lines ((n, r) ∷ rows) = line up_name n (decimal (up_of (r.tcp_ok && r.tls_ok))) ∷ up_lines rows

  handshake_line : Node → Option Float64 → List Str
  handshake_line n none = []
  handshake_line n (some ms) = line handshake_name n (seconds ms) ∷ []

  pub handshake_lines : List (Node × ProbeResult Float64) → List Str
  unfolding handshake_line
  handshake_lines [] = []
  handshake_lines ((n, r) ∷ rows) = handshake_line n r.latency_ms ++ handshake_lines rows

  pub age_lines : List (Node × ProbeResult Float64) → List Str
  age_lines [] = []
  age_lines ((n, r) ∷ rows) = line age_name n (age now r.ts) ∷ age_lines rows

  unfoldable pub metric_lines : List (Node × ProbeResult Float64) → List Str
  unfolding up_lines handshake_lines age_lines
  metric_lines rows =
      codes "# HELP nodecheck_node_up Node passed both TCP connect and TLS handshake."
      ∷ codes "# TYPE nodecheck_node_up gauge"
      ∷ (up_lines rows
          ++ codes "# HELP nodecheck_handshake_seconds Duration of the last successful probe."
            ∷ codes "# TYPE nodecheck_handshake_seconds gauge"
            ∷ (handshake_lines rows
                ++ codes
                    "# HELP nodecheck_last_check_age_seconds Age of the most recent probe result."
                  ∷ codes "# TYPE nodecheck_last_check_age_seconds gauge"
                  ∷ age_lines rows))

  unfoldable pub metrics : (db : Database Float64) → Selects db → Database.State db → Str
  unfolding metric_lines
  metrics db q s = join (newline ∷ []) (metric_lines (Selects.latest_per_node q s)) ++ newline ∷ []
