-- ===== src/RunAll/Probes.antt =====
-- The probes that the goroutines of `runAll` of cmd/nodecheck/main.go make, and the order of a report.
use mathlib.Core.Path.{subst, ap₂}
use tunnel_ops.Base.{ℕ, Str, List, [], ◌∷◌, map, some, ◌≡◌, refl, ◌∙◌, some-eq, sym}
use tunnel_ops.Target.{Target, Result}
use tunnel_ops.Prober.{Registry, Runtime, ProbeEnv, probe}
use tunnel_ops.Prober.Laws.{built_in, probers_lem, Describes, probe-Describes}
use tunnel_ops.RunAll.Results.{Each}

module _ (rt : Runtime) where
  open rt use {floating, setting}
  open floating use {Float64}

  -- `r := probe(…)` and `r.Timestamp = …`: what a goroutine may send for a target.
  abbrev pub Probed : Registry → ℕ → Target → Result Float64 → Type 0
  Probed ps timeout t r =
      (env : ProbeEnv setting) × (finished : ℕ) × (q : Result Float64) × (probe rt ps t env timeout
        ≡ some q)
      × (r ≡ record q { timestamp = finished })

  Probed-Describes :
      (timeout : ℕ) (t : Target) (r : Result Float64)
      → Probed built_in timeout t r
      → Describes rt r t
  Probed-Describes timeout t r (env, finished, q, probed, e) =
      let (q', probed', describes, silent) =
        probe-Describes rt built_in t env timeout probers_lem in
      let same : q' ≡ q = some-eq (sym probed' ∙ probed) in
      rw e (subst (λ x. Describes rt x t) same describes)

  abbrev pub result_names : List (Result Float64) → List Str
  result_names rs = map (λ r. r.name) rs

  abbrev pub target_names : List Target → List Str
  target_names ts = map (λ t. t.name) ts

  pub Each-names :
      (timeout : ℕ) (ts : List Target) (rs : List (Result Float64))
      → Each (Result Float64) (Probed built_in timeout) ts rs
      → result_names rs ≡ target_names ts
  Each-names timeout [] [] h = refl
  Each-names timeout [] (r ∷ rs) h = absurd h
  Each-names timeout (t ∷ ts) [] h = absurd h
  Each-names timeout (t ∷ ts) (r ∷ rs) h =
      ap₂ ◌∷◌ (Probed-Describes timeout t r h.0).1 (Each-names timeout ts rs h.1)
