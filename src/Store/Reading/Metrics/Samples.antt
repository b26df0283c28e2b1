-- ===== src/Store/Reading/Metrics/Samples.antt =====
-- The samples of GET /metrics of probestore (probestore/app/routers/metrics.py), as a Prometheus server
-- reads them from its lines.
use tunnel_ops.Base.{
  ℕ, ◌==◌, ◌&&◌, Str, codes, decimal, Bool, false, List, [], ◌∷◌, ◌++◌, append_assoc, map, Option,
  Option-cases, some-eq, none, some, if◌then◌else◌, ◌≡◌, refl, sym, ap, ◌∙◌, inl, inr, arith,
}
use tunnel_ops.Store.{ProbeResult}
use tunnel_ops.Store.Reading.{Node}
use tunnel_ops.Store.Reading.Metrics.{
  up_name, handshake_name, age_name, Formats, node_labels, line, up_of, up_lines, handshake_line,
  handshake_lines, age_lines, metric_lines,
}
use tunnel_ops.Store.Reading.Metrics.Series.{
  Labels, labels_of, read_labels, read_labels-node_labels,
}

-- A sample: the metric, the labels, and the text of the value.
abbrev pub Sample : Type 0
Sample = Str × Labels × Str

-- What stands before a brace, and what follows.
abbrev pub until_brace : Str → Str × Str
until_brace [] = ([], [])
until_brace (c ∷ s) =
    let (name, rest) = until_brace s in if c == b'{' then ([], c ∷ s) else (c ∷ name, rest)

abbrev pub is_comment : Str → Bool
is_comment [] = false
is_comment (c ∷ s) = c == b'#'

abbrev sample_of : Str → Option (Labels × Str) → Option (List Sample)
sample_of name (some (labels, c ∷ value)) = some ((name, labels, value) ∷ [])
sample_of name _ = none

-- The sample of a line, or none for a comment; `none` is a line that cannot be read.
pub read_line : Str → Option (List Sample)
read_line l =
    if is_comment l then some [] else sample_of (until_brace l).0 (read_labels (until_brace l).1)

abbrev both : Option (List Sample) → Option (List Sample) → Option (List Sample)
both none o = none
both (some xs) none = none
both (some xs) (some ys) = some (xs ++ ys)

abbrev pub read_lines : List Str → Option (List Sample)
read_lines [] = some []
read_lines (l ∷ ls) = both (read_line l) (read_lines ls)

read_lines-append :
    (ls ms : List Str) (xs ys : List Sample)
    → read_lines ls ≡ some xs
    → read_lines ms ≡ some ys
    → read_lines (ls ++ ms) ≡ some (xs ++ ys)
read_lines-append [] ms xs ys h k = k ∙ ap (λ t. some (t ++ ys)) (some-eq h)
read_lines-append (l ∷ ls) ms xs ys h k = elim (Option-cases (read_line l)) [
  | inl e ↦ absurd (ground (arith, rw e at h))
  | inr (x, e) ↦ elim (Option-cases (read_lines ls)) [
    | inl e' ↦ absurd (ground (arith, rw (e, e') at h))
    | inr (zs, e') ↦
        let whole : x ++ zs ≡ xs = some-eq (rw (e, e') at h) in
        rw (e, read_lines-append ls ms zs ys e' k)
          (ap some (sym (append_assoc x zs ys) ∙ ap (λ t. t ++ ys) whole))
  ]
]

-- The name of a metric is what stands before the labels.
abbrev Named : Str → Type 0
Named name =
    (n : Node) (rest : Str)
    → (is_comment (name ++ (node_labels n ++ rest)) ≡ false)
      × (until_brace (name ++ (node_labels n ++ rest)) ≡ (name, node_labels n ++ rest))

read_line-line :
    (name : Str) (n : Node) (value : Str)
    → Named name
    → read_line (line name n value) ≡ some ((name, labels_of n, value) ∷ [])
unfolding read_line
read_line-line name n value named =
    let (plain, split) = named n (codes " " ++ value) in
    rw (plain, split, read_labels-node_labels n (codes " " ++ value)) refl

up_name-Named : Named up_name
unfolding node_labels
up_name-Named n rest = (refl, refl)

handshake_name-Named : Named handshake_name
unfolding node_labels
handshake_name-Named n rest = (refl, refl)

age_name-Named : Named age_name
unfolding node_labels
age_name-Named n rest = (refl, refl)

module _ {Float64 : Type 0} (fmt : Formats Float64) (now : ℕ) where
  abbrev Rows : Type 0
  Rows = List (Node × ProbeResult Float64)

  -- A sample for each of the nodes, and one of the handshake for each with a latency.
  abbrev pub liveness_samples : Rows → List Sample
  liveness_samples rows =
      map (λ e. (up_name, labels_of e.0, decimal (up_of (e.1.tcp_ok && e.1.tls_ok)))) rows

  abbrev pub handshake_sample : Node → Option Float64 → List Sample
  handshake_sample n none = []
  handshake_sample n (some ms) = (handshake_name, labels_of n, Formats.seconds fmt ms) ∷ []

  abbrev pub handshake_samples : Rows → List Sample
  handshake_samples [] = []
  handshake_samples ((n, r) ∷ rows) = handshake_sample n r.latency_ms ++ handshake_samples rows

  abbrev pub age_samples : Rows → List Sample
  age_samples rows = map (λ e. (age_name, labels_of e.0, Formats.age fmt now e.1.ts)) rows

  up_lines-liveness_samples :
      (rows : Rows) → read_lines (up_lines fmt now rows) ≡ some (liveness_samples rows)
  unfolding up_lines
  up_lines-liveness_samples [] = refl
  up_lines-liveness_samples ((n, r) ∷ rows) =
      rw
        (
          read_line-line up_name n (decimal (up_of (r.tcp_ok && r.tls_ok))) up_name-Named,
          up_lines-liveness_samples rows,
        )
        refl

  age_lines-samples : (rows : Rows) → read_lines (age_lines fmt now rows) ≡ some (age_samples rows)
  unfolding age_lines
  age_lines-samples [] = refl
  age_lines-samples ((n, r) ∷ rows) =
      rw
        (
          read_line-line age_name n (Formats.age fmt now r.ts) age_name-Named,
          age_lines-samples rows,
        )
        refl

  handshake_line-samples :
      (n : Node) (o : Option Float64)
      → read_lines (handshake_line fmt now n o) ≡ some (handshake_sample n o)
  unfolding handshake_line
  handshake_line-samples n none = refl
  handshake_line-samples n (some ms) =
      rw (read_line-line handshake_name n (Formats.seconds fmt ms) handshake_name-Named) refl

  handshake_lines-samples :
      (rows : Rows) → read_lines (handshake_lines fmt now rows) ≡ some (handshake_samples rows)
  unfolding handshake_lines
  handshake_lines-samples [] = refl
  handshake_lines-samples ((n, r) ∷ rows) =
      read_lines-append (handshake_line fmt now n r.latency_ms) (handshake_lines fmt now rows)
        (handshake_sample n r.latency_ms) (handshake_samples rows)
        (handshake_line-samples n r.latency_ms) (handshake_lines-samples rows)

  -- All samples: the liveness, the handshake and the age.
  abbrev pub samples : Rows → List Sample
  samples rows = liveness_samples rows ++ (handshake_samples rows ++ age_samples rows)

  pub metric_lines-samples :
      (rows : Rows) → read_lines (metric_lines fmt now rows) ≡ some (samples rows)
  unfolding metric_lines read_line
  metric_lines-samples rows =
      let ages = age_lines-samples rows in
      let handshakes =
        read_lines-append (handshake_lines fmt now rows) _ (handshake_samples rows)
          (age_samples rows) (handshake_lines-samples rows) (commented _ _ ages) in
      commented _ _ (
        read_lines-append (up_lines fmt now rows) _ (liveness_samples rows)
          (handshake_samples rows ++ age_samples rows) (up_lines-liveness_samples rows)
          (commented _ _ handshakes))
    where
      commented :
          (o : Option (List Sample)) (xs : List Sample)
          → o ≡ some xs
          → both (some []) (both (some []) o) ≡ some xs
      commented o xs h = rw h refl
