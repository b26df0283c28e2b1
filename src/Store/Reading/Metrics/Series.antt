-- ===== src/Store/Reading/Metrics/Series.antt =====
-- That the series of GET /metrics of probestore are told apart by their labels.
use tunnel_ops.Base.{
  Option-cases, inl, inr, is_some, map, decimal, ◌&&◌, ℕ, ◌==◌, ◌<◌, Str, codes, List, [], ◌∷◌,
  ◌++◌, append_assoc, All, Option, none, some, some-eq, if◌then◌else◌, ◌≡◌, refl, sym, ap, ◌∙◌, ◌≢◌,
  arith,
}
use tunnel_ops.Report.{double_quote, escape_label}
use tunnel_ops.Report.Escape.{read_value, read_value-escape_label}
use tunnel_ops.Store.{ProbeResult, Database}
use tunnel_ops.Store.Documents.{Documented}
use tunnel_ops.Store.Reading.{Node, Selects}
use tunnel_ops.Store.Reading.Queries.{In, Pairwise, node_key, Read}
use tunnel_ops.Store.Reading.Metrics.{
  up_name, handshake_name, age_name, Formats, escape_value, or_empty, node_labels, line, up_of,
  up_lines, handshake_line, handshake_lines, age_lines,
}

-- What is behind a prefix.
abbrev pub behind : Str → Str → Option Str
behind [] s = some s
behind (c ∷ cs) [] = none
behind (c ∷ cs) (d ∷ ds) = if c == d then behind cs ds else none

behind-append : (p s : Str) → behind p (p ++ s) ≡ some s
behind-append [] s = refl
behind-append (c ∷ cs) s = ground (arith, behind-append cs s)

infixl 5 ◌>>=◌
abbrev ◌>>=◌ : {A B : Type 0} → Option A → (A → Option B) → Option B
none >>= f = none
some a >>= f = f a

-- A label of a name, as a Prometheus server reads it: its value, and what follows.
pub read_label : Str → Str → Option (Str × Str)
read_label key s = behind key s >>= read_value

pub record Labels : Type 0 where
  pub node : Str
  pub addr : Str
  pub sni : Str
  pub provider : Str

-- The four labels between braces, and what follows them.
pub read_labels : Str → Option (Labels × Str)
read_labels s = do
  (node, s₁) ← read_label (codes "{node=\"") s
  (addr, s₂) ← read_label (codes ",addr=\"") s₁
  (sni, s₃) ← read_label (codes ",sni=\"") s₂
  (provider, s₄) ← read_label (codes ",provider=\"") s₃
  rest ← behind (codes "}") s₄
  some (record { node = node; addr = addr; sni = sni; provider = provider }, rest)

abbrev pub labels_of : Node → Labels
labels_of n = record { node = n.name; addr = n.addr; sni = n.sni; provider = or_empty n.provider }

-- Both programs escape in the same way.
pub escape_value-escape_label : (s : Str) → escape_value s ≡ escape_label s
unfolding escape_value escape_label
escape_value-escape_label s = refl

read_label-part :
    (key value rest : Str)
    → read_label key (key ++ (escape_value value ++ double_quote ∷ rest)) ≡ some (value, rest)
unfolding read_label
read_label-part key value rest =
    ap (λ o. o >>= read_value) (behind-append key (escape_value value ++ double_quote ∷ rest))
    ∙ ap (λ t. read_value (t ++ double_quote ∷ rest)) (escape_value-escape_label value)
    ∙ read_value-escape_label value rest

-- A label in front of a text.
abbrev in_front : Str → Str → Str → Str
in_front key value rest = key ++ (escape_value value ++ double_quote ∷ rest)

node_labels-in_front :
    (n : Node) (rest : Str)
    → node_labels n ++ rest
      ≡ in_front (codes "{node=\"") n.name (
          in_front (codes ",addr=\"") n.addr (
            in_front
              (codes ",sni=\"")
              n.sni
              (in_front (codes ",provider=\"") (or_empty n.provider) (codes "}" ++ rest))))
unfolding node_labels
node_labels-in_front n rest = simp append_assoc

-- The labels are read back as what they were made of.
pub read_labels-node_labels :
    (n : Node) (rest : Str) → read_labels (node_labels n ++ rest) ≡ some (labels_of n, rest)
unfolding read_labels
read_labels-node_labels n rest = rw (
  node_labels-in_front n rest,
  read_label-part (codes "{node=\"") n.name _,
  read_label-part (codes ",addr=\"") n.addr _,
  read_label-part (codes ",sni=\"") n.sni _,
  read_label-part (codes ",provider=\"") (or_empty n.provider) _,
)

-- The labels of a sample line of a metric.
pub series : Str → Str → Option Labels
series name l = do s ← behind name l; (labels, value) ← read_labels s; some labels

series-line :
    (name : Str) (n : Node) (value : Str) → series name (line name n value) ≡ some (labels_of n)
unfolding series
series-line name n value = rw (
  behind-append name (node_labels n ++ (codes " " ++ value)),
  read_labels-node_labels n (codes " " ++ value),
)

module _ {Float64 : Type 0} where
  abbrev pub labels_of_rows : List (Node × ProbeResult Float64) → List (Option Labels)
  labels_of_rows rows = map (λ e. some (labels_of e.0)) rows

  -- The rows with a latency.
  abbrev pub timed : List (Node × ProbeResult Float64) → List (Node × ProbeResult Float64)
  timed [] = []
  timed ((n, r) ∷ rows) =
      let rest = timed rows in if is_some r.latency_ms then (n, r) ∷ rest else rest

  module _ (fmt : Formats Float64) (now : ℕ) where
    up_lines-series :
        (rows : List (Node × ProbeResult Float64))
        → map (series up_name) (up_lines fmt now rows) ≡ labels_of_rows rows
    unfolding up_lines
    up_lines-series [] = refl
    up_lines-series ((n, r) ∷ rows) = λ i.
        series-line up_name n (decimal (up_of (r.tcp_ok && r.tls_ok))) i ∷ up_lines-series rows i

    age_lines-series :
        (rows : List (Node × ProbeResult Float64))
        → map (series age_name) (age_lines fmt now rows) ≡ labels_of_rows rows
    unfolding age_lines
    age_lines-series [] = refl
    age_lines-series ((n, r) ∷ rows) =
        λ i. series-line age_name n (Formats.age fmt now r.ts) i ∷ age_lines-series rows i

    handshake_lines-series :
        (rows : List (Node × ProbeResult Float64))
        → map (series handshake_name) (handshake_lines fmt now rows) ≡ labels_of_rows (timed rows)
    unfolding handshake_lines handshake_line
    handshake_lines-series [] = refl
    handshake_lines-series ((n, r) ∷ rows) = elim (Option-cases r.latency_ms) [
      | inl e ↦ rw e (handshake_lines-series rows)
      | inr (ms, e) ↦ rw e (λ i.
          series-line handshake_name n (Formats.seconds fmt ms) i ∷ handshake_lines-series rows i)
    ]

module _ {Float64 : Type 0} (db : Database Float64) (doc : Documented db) (q : Selects db)
    (read : Read db doc q) where
  open db use {State}
  open doc use {node_id}

  abbrev Filed : State → List (Node × ProbeResult Float64) → Type 0
  Filed s rows = All (λ e. node_id (node_key e.0) s ≡ some e.0.id) rows

  abbrev Below : Node × ProbeResult Float64 → Node × ProbeResult Float64 → Type 0
  Below e e' = e.0.id < e'.0.id

  abbrev pub Apart : Node × ProbeResult Float64 → Node × ProbeResult Float64 → Type 0
  Apart e e' = labels_of e.0 ≢ labels_of e'.0

  apart :
      (s : State) (e : Node × ProbeResult Float64) (rows : List (Node × ProbeResult Float64))
      → node_id (node_key e.0) s ≡ some e.0.id
      → Filed s rows
      → All (Below e) rows
      → All (Apart e) rows
  apart s e [] held filed below = tt
  apart s e (e' ∷ rows) held filed below = (
    λ same.
        let key : node_key e.0 ≡ node_key e'.0 = ap (λ l. (Labels.addr l, Labels.sni l)) same in
        let id = some-eq (sym held ∙ ap (λ k. node_id k s) key ∙ filed.0) in
        omega (arith, below.0, id),
    apart s e rows held filed.1 below.1,
  )

  rows-Apart :
      (s : State) (rows : List (Node × ProbeResult Float64))
      → Filed s rows
      → Pairwise Below rows
      → Pairwise Apart rows
  rows-Apart s [] filed below = tt
  rows-Apart s (e ∷ rows) filed below =
      (apart s e rows filed.0 filed.1 below.0, rows-Apart s rows filed.1 below.1)

  rows-Filed :
      (s : State) (rows : List (Node × ProbeResult Float64))
      → ((e : Node × ProbeResult Float64) → In e rows → node_id (node_key e.0) s ≡ some e.0.id)
      → Filed s rows
  rows-Filed s [] h = tt
  rows-Filed s (e ∷ rows) h = (h e (inl refl), rows-Filed s rows (λ e' k. h e' (inr k)))

  -- GET /metrics never gives two samples of one metric the same labels: the nodes that are selected
  -- differ in their labels, whatever characters their names hold. Read as Prometheus reads it, the
  -- liveness metric and the age have a sample with the labels of each of these nodes, in their order,
  -- and the handshake metric one for each whose newest result has a latency, and there is no other.
  pub metrics-series :
      (fmt : Formats Float64) (now : ℕ) (s : State)
      → let rows = Selects.latest_per_node q s in
        Pairwise Apart rows
        × (map (series up_name) (up_lines fmt now rows) ≡ labels_of_rows rows)
        × (map (series handshake_name) (handshake_lines fmt now rows) ≡ labels_of_rows (timed rows))
        × (map (series age_name) (age_lines fmt now rows) ≡ labels_of_rows rows)
  metrics-series fmt now s =
      let rows = Selects.latest_per_node q s in
      let filed = rows-Filed s rows (λ e h. (read.joined e.0 e.1 s h).0) in
      (
        rows-Apart s rows filed (read.distinct s),
        up_lines-series fmt now rows,
        handshake_lines-series fmt now rows,
        age_lines-series fmt now rows,
      )
