-- ===== src/Store/Reading/Metrics/Exposed.antt =====
-- GET /metrics of probestore (probestore/app/routers/metrics.py), as a Prometheus server reads it.
use tunnel_ops.Base.{ℕ, some, ◌≡◌, refl, ap, ◌∙◌}
use tunnel_ops.Store.{Database}
use tunnel_ops.Store.Documents.{Documented}
use tunnel_ops.Store.Reading.{Selects}
use tunnel_ops.Store.Reading.Queries.{Pairwise, Read}
use tunnel_ops.Store.Reading.Metrics.{Formats, metric_lines, metrics}
use tunnel_ops.Store.Reading.Metrics.Series.{metrics-series}
use tunnel_ops.Store.Reading.Metrics.Lines.{lines, lines-unlines, joined}
use tunnel_ops.Store.Reading.Metrics.Samples.{read_lines, samples, metric_lines-samples}
use tunnel_ops.Store.Reading.Metrics.Plain.{Plain, metric_lines-Plain}
use tunnel_ops.Store.Reading.Metrics.Distinct.{Differ, samples-Differ}

module _ {Float64 : Type 0} (db : Database Float64) (doc : Documented db) (q : Selects db)
    (read : Read db doc q) where
  open db use {State}

  -- The text of GET /metrics, read line by line as Prometheus reads it, has for each selected node,
  -- in their order, a sample of the liveness, then one of the handshake for each whose newest result
  -- has a latency, then one of the age for each, and no other; with the node's labels, whatever
  -- characters they hold, and the values that the source writes. No two samples of a metric have
  -- the same labels. This is where the numbers are written without a newline.
  pub metrics-samples :
      (fmt : Formats Float64) (now : ℕ) (s : State)
      → Plain fmt now
      → let rows = Selects.latest_per_node q s in
        (read_lines (lines (metrics fmt now db q s)) ≡ some (samples fmt now rows))
        × Pairwise Differ (samples fmt now rows)
  unfolding metrics
  metrics-samples fmt now s plain =
      let rows = Selects.latest_per_node q s in
      (
        ap (λ t. read_lines (lines t))
              (joined (metric_lines fmt now rows) _ _ (unfold metric_lines in refl))
            ∙ ap read_lines
                (lines-unlines (metric_lines fmt now rows) (metric_lines-Plain fmt now plain rows))
            ∙ metric_lines-samples fmt now rows,
        samples-Differ fmt now rows (metrics-series db doc q read fmt now s).0,
      )
