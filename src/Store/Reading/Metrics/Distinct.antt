-- ===== src/Store/Reading/Metrics/Distinct.antt =====
-- That no two samples of GET /metrics of probestore (probestore/app/routers/metrics.py) are of one series.
use tunnel_ops.Base.{
  str_eq, str_eq_iff, ℕ, ◌&&◌, Str, decimal, false, List, [], ◌∷◌, ◌++◌, map, All, All-append,
  Option, none, some, ◌≡◌, refl, sym, ◌∙◌, ◌≢◌, arith,
}
use tunnel_ops.Store.{ProbeResult}
use tunnel_ops.Store.Reading.{Node}
use tunnel_ops.Store.Reading.Queries.{Pairwise}
use tunnel_ops.Store.Reading.Metrics.{up_name, handshake_name, age_name, Formats, up_of}
use tunnel_ops.Store.Reading.Metrics.Series.{labels_of}
use tunnel_ops.Store.Reading.Metrics.Samples.{Sample, handshake_sample, handshake_samples, samples}

-- Samples of one metric have different labels.
abbrev pub Differ : Sample → Sample → Type 0
Differ x y = x.0 ≡ y.0 → x.1 ≢ y.1

abbrev Of : Str → List Sample → Type 0
Of name xs = All (λ x. x.0 ≡ name) xs

Of-Differ :
    (x : Sample) (name : Str) (ys : List Sample) → x.0 ≢ name → Of name ys → All (Differ x) ys
Of-Differ x name [] apart of = tt
Of-Differ x name (y ∷ ys) apart of =
    ((λ same. absurd (apart (same ∙ of.0))), Of-Differ x name ys apart of.1)

Pairwise-append :
    (xs ys : List Sample)
    → Pairwise Differ xs
    → Pairwise Differ ys
    → All (λ x. All (Differ x) ys) xs
    → Pairwise Differ (xs ++ ys)
Pairwise-append [] ys h k l = k
Pairwise-append (x ∷ xs) ys h k l = (All-append _ xs ys h.0 l.0, Pairwise-append xs ys h.1 k l.1)

names_apart : (a b : Str) → str_eq a b ≡ false → a ≢ b
names_apart a b h e = ground (arith, h, (str_eq_iff a b).1 e)

module _ {Float64 : Type 0} where
  abbrev Separate : Node × ProbeResult Float64 → Node × ProbeResult Float64 → Type 0
  Separate e e' = labels_of e.0 ≢ labels_of e'.0

  -- A sample for each of some nodes.
  module _ (name : Str) (value : Node × ProbeResult Float64 → Str) where
    each : List (Node × ProbeResult Float64) → List Sample
    each rows = map (λ e. (name, labels_of e.0, value e)) rows

    each-Of : (rows : List (Node × ProbeResult Float64)) → Of name (each rows)
    unfolding each
    each-Of [] = tt
    each-Of (e ∷ rows) = (refl, each-Of rows)

    each-Differ :
        (rows : List (Node × ProbeResult Float64))
        → Pairwise Separate rows
        → Pairwise Differ (each rows)
    unfolding each
    each-Differ [] h = tt
    each-Differ (e ∷ rows) h = (others rows h.0, each-Differ rows h.1)
      where
        others :
            (rows : List (Node × ProbeResult Float64))
            → All (Separate e) rows
            → All (Differ (name, labels_of e.0, value e)) (each rows)
        others [] k = tt
        others (e' ∷ rows) k = ((λ same. k.0), others rows k.1)

  module _ (fmt : Formats Float64) (now : ℕ) where
    handshake_sample-Of :
        (n : Node) (o : Option Float64) → Of handshake_name (handshake_sample fmt now n o)
    handshake_sample-Of n none = tt
    handshake_sample-Of n (some ms) = (refl, tt)

    handshake_samples-Of :
        (rows : List (Node × ProbeResult Float64))
        → Of handshake_name (handshake_samples fmt now rows)
    handshake_samples-Of [] = tt
    handshake_samples-Of ((n, r) ∷ rows) =
        All-append _ (handshake_sample fmt now n r.latency_ms) (handshake_samples fmt now rows)
          (handshake_sample-Of n r.latency_ms) (handshake_samples-Of rows)

    -- A sample that differs from the samples of all nodes.
    handshake_samples-others :
        (x : Sample) (rows : List (Node × ProbeResult Float64))
        → All (λ e. x.1 ≢ labels_of e.0) rows
        → All (Differ x) (handshake_samples fmt now rows)
    handshake_samples-others x [] h = tt
    handshake_samples-others x ((n, r) ∷ rows) h =
        All-append _ (handshake_sample fmt now n r.latency_ms) (handshake_samples fmt now rows)
          (one r.latency_ms) (handshake_samples-others x rows h.1)
      where
        one : (o : Option Float64) → All (Differ x) (handshake_sample fmt now n o)
        one none = tt
        one (some ms) = ((λ same. h.0), tt)

    handshake_samples-Differ :
        (rows : List (Node × ProbeResult Float64))
        → Pairwise Separate rows
        → Pairwise Differ (handshake_samples fmt now rows)
    handshake_samples-Differ [] h = tt
    handshake_samples-Differ ((n, r) ∷ rows) h =
        one r.latency_ms (handshake_samples-Differ rows h.1)
      where
        one :
            (o : Option Float64)
            → Pairwise Differ (handshake_samples fmt now rows)
            → Pairwise Differ (handshake_sample fmt now n o ++ handshake_samples fmt now rows)
        one none k = k
        one (some ms) k = (
          handshake_samples-others (handshake_name, labels_of n, Formats.seconds fmt ms) rows h.0,
          k,
        )

    -- Samples of a metric differ from those of another.
    crossed :
        (name : Str) (xs ys : List Sample) (other : Str)
        → name ≢ other
        → Of name xs
        → Of other ys
        → All (λ x. All (Differ x) ys) xs
    crossed name [] ys other apart of of' = tt
    crossed name (x ∷ xs) ys other apart of of' = (
      Of-Differ x other ys (λ e. apart (sym of.0 ∙ e)) of',
      crossed name xs ys other apart of.1 of',
    )

    pub samples-Differ :
        (rows : List (Node × ProbeResult Float64))
        → Pairwise Separate rows
        → Pairwise Differ (samples fmt now rows)
    unfolding each str_eq
    samples-Differ rows h =
        let up = each up_name (λ e. decimal (up_of (e.1.tcp_ok && e.1.tls_ok))) rows in
        let hs = handshake_samples fmt now rows in
        let ages = each age_name (λ e. Formats.age fmt now e.1.ts) rows in
        let up_of_name = each-Of up_name (λ e. decimal (up_of (e.1.tcp_ok && e.1.tls_ok))) rows in
        let ages_of_name = each-Of age_name (λ e. Formats.age fmt now e.1.ts) rows in
        Pairwise-append up (hs ++ ages)
          (each-Differ up_name (λ e. decimal (up_of (e.1.tcp_ok && e.1.tls_ok))) rows h)
          (Pairwise-append hs ages (handshake_samples-Differ rows h)
            (each-Differ age_name (λ e. Formats.age fmt now e.1.ts) rows h)
            (crossed handshake_name hs ages age_name (names_apart handshake_name age_name refl)
              (handshake_samples-Of rows) ages_of_name))
          (beside up hs ages
            (crossed up_name up hs handshake_name (names_apart up_name handshake_name refl)
              up_of_name (handshake_samples-Of rows))
            (crossed up_name up ages age_name (names_apart up_name age_name refl) up_of_name
              ages_of_name))
      where
        beside :
            (xs ys zs : List Sample)
            → All (λ x. All (Differ x) ys) xs
            → All (λ x. All (Differ x) zs) xs
            → All (λ x. All (Differ x) (ys ++ zs)) xs
        beside [] ys zs k l = tt
        beside (x ∷ xs) ys zs k l = (All-append _ ys zs k.0 l.0, beside xs ys zs k.1 l.1)
