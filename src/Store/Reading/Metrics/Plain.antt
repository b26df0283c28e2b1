-- ===== src/Store/Reading/Metrics/Plain.antt =====
-- That the lines of GET /metrics of probestore (probestore/app/routers/metrics.py) hold no newline.
use tunnel_ops.Base.{
  ℕ, ◌&&◌, Str, codes, decimal, Bool, true, false, List, [], ◌∷◌, ◌++◌, All, All-append, Option,
  none, some, ◌≡◌, refl, ap, arith,
}
use tunnel_ops.Report.{double_quote}
use tunnel_ops.Report.Lines.{newlines, newlines-append, newlines-escape_label}
use tunnel_ops.Store.{ProbeResult}
use tunnel_ops.Store.Reading.{Node}
use tunnel_ops.Store.Reading.Metrics.{
  up_name, handshake_name, age_name, Formats, escape_value, or_empty, part, node_labels, line,
  up_of, up_lines, handshake_line, handshake_lines, age_lines, metric_lines,
}
use tunnel_ops.Store.Reading.Metrics.Series.{escape_value-escape_label}

newlines-part : (key value : Str) → newlines key ≡ 0 → newlines (part key value) ≡ 0
newlines-part key value h = omega (
  arith,
  h,
  newlines-append key (escape_value value ++ double_quote ∷ []),
  newlines-append (escape_value value) (double_quote ∷ []),
  ap newlines (escape_value-escape_label value),
  newlines-escape_label value,
)

newlines-node_labels : (n : Node) → newlines (node_labels n) ≡ 0
unfolding node_labels
newlines-node_labels n =
    let node = part (codes "node=\"") n.name in
    let addr = part (codes "addr=\"") n.addr in
    let sni = part (codes "sni=\"") n.sni in
    let provider = part (codes "provider=\"") (or_empty n.provider) in
    omega (
      arith,
      newlines-append
          (node ++ (codes "," ++ (addr ++ (codes "," ++ (sni ++ (codes "," ++ provider))))))
          (codes "}"),
      newlines-append node (codes "," ++ (addr ++ (codes "," ++ (sni ++ (codes "," ++ provider))))),
      newlines-append addr (codes "," ++ (sni ++ (codes "," ++ provider))),
      newlines-append sni (codes "," ++ provider),
      newlines-part (codes "node=\"") n.name refl,
      newlines-part (codes "addr=\"") n.addr refl,
      newlines-part (codes "sni=\"") n.sni refl,
      newlines-part (codes "provider=\"") (or_empty n.provider) refl,
    )

newlines-line :
    (name : Str) (n : Node) (value : Str)
    → newlines name ≡ 0
    → newlines value ≡ 0
    → newlines (line name n value) ≡ 0
newlines-line name n value h k = omega (
  arith,
  h,
  k,
  newlines-append name (node_labels n ++ (codes " " ++ value)),
  newlines-append (node_labels n) (codes " " ++ value),
  newlines-node_labels n,
)

newlines-up_of : (b : Bool) → newlines (decimal (up_of b)) ≡ 0
unfolding decimal
newlines-up_of true = refl
newlines-up_of false = refl

module _ {Float64 : Type 0} (fmt : Formats Float64) (now : ℕ) where
  abbrev Rows : Type 0
  Rows = List (Node × ProbeResult Float64)

  -- The numbers are written without a newline.
  abbrev pub Plain : Type 0
  Plain =
      ((x : Float64) → newlines (Formats.seconds fmt x) ≡ 0)
      × ((t t' : ℕ) → newlines (Formats.age fmt t t') ≡ 0)

  up_lines-Plain : (rows : Rows) → All (λ l. newlines l ≡ 0) (up_lines fmt now rows)
  unfolding up_lines
  up_lines-Plain [] = tt
  up_lines-Plain ((n, r) ∷ rows) = (
    newlines-line up_name n (decimal (up_of (r.tcp_ok && r.tls_ok))) refl
        (newlines-up_of (r.tcp_ok && r.tls_ok)),
    up_lines-Plain rows,
  )

  age_lines-Plain : Plain → (rows : Rows) → All (λ l. newlines l ≡ 0) (age_lines fmt now rows)
  unfolding age_lines
  age_lines-Plain plain [] = tt
  age_lines-Plain plain ((n, r) ∷ rows) = (
    newlines-line age_name n (Formats.age fmt now r.ts) refl (plain.1 now r.ts),
    age_lines-Plain plain rows,
  )

  handshake_line-Plain :
      Plain
      → (n : Node) (o : Option Float64) → All (λ l. newlines l ≡ 0) (handshake_line fmt now n o)
  unfolding handshake_line
  handshake_line-Plain plain n none = tt
  handshake_line-Plain plain n (some ms) =
      (newlines-line handshake_name n (Formats.seconds fmt ms) refl (plain.0 ms), tt)

  handshake_lines-Plain :
      Plain → (rows : Rows) → All (λ l. newlines l ≡ 0) (handshake_lines fmt now rows)
  unfolding handshake_lines
  handshake_lines-Plain plain [] = tt
  handshake_lines-Plain plain ((n, r) ∷ rows) =
      All-append _ (handshake_line fmt now n r.latency_ms) (handshake_lines fmt now rows)
        (handshake_line-Plain plain n r.latency_ms) (handshake_lines-Plain plain rows)

  pub metric_lines-Plain :
      Plain → (rows : Rows) → All (λ l. newlines l ≡ 0) (metric_lines fmt now rows)
  unfolding metric_lines
  metric_lines-Plain plain rows = (
    refl,
    (
      refl,
      All-append _ (up_lines fmt now rows) _ (up_lines-Plain rows) (
        refl,
        (
          refl,
          All-append _ (handshake_lines fmt now rows) _ (handshake_lines-Plain plain rows)
              (refl, (refl, age_lines-Plain plain rows)),
        ),
      ),
    ),
  )
