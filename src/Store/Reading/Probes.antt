-- ===== src/Store/Reading/Probes.antt =====
-- From a probe of cmd/nodecheck to what GET /v1/nodes of probestore shows of its node.
use tunnel_ops.Base.{
  ℕ, ◌<◌, Str, str_eq_iff, Bool, true, false, ◌&&◌, List, [], ◌∷◌, ◌++◌, map, All, some, some-eq,
  Option-cases, ok, ◌≡◌, refl, sym, ap, ◌∙◌, ◌⊎◌, inl, inr, ◌↔◌, arith,
}
use tunnel_ops.Target.{Floating, Target, Result}
use tunnel_ops.Outcome.Expected.{expected, to_result-expected}
use tunnel_ops.Tls.{probe_tls}
use tunnel_ops.Prober.{or_default, tls, kind, Runtime, prober_for, run_prober}
use tunnel_ops.Prober.Laws.{built_in, probers_lem, prober_for_iff, probe-expected}
use tunnel_ops.Prober.Phases.{asks_tls}
use tunnel_ops.RunAll.Probes.{Probed}
use tunnel_ops.Push.{PushResult, pushable, failed_phase}
use tunnel_ops.Push.Laws.{
  Carries, Ships, nothing, shipped, left_out, left_out_lem, failed_phase_iff,
  failed_phase-probe_tls,
}
use tunnel_ops.Command.Fleet.{pushable_lem}
use tunnel_ops.Store.{ResultIn, Key, key_of}
use tunnel_ops.Store.Schema.{microseconds}
use tunnel_ops.Store.Schema.Contract.{received}

same_truth : (a b : Bool) → ((a ≡ true) ↔ (b ≡ true)) → a ≡ b
same_truth true b h = sym (h.0 refl)
same_truth false true h = h.1 refl
same_truth false false h = refl

both_iff : (a b : Bool) → ((a && b) ≡ true) ↔ ((a ≡ true) × (b ≡ true))
both_iff true true = (λ h. (refl, refl), λ h. refl)
both_iff true false = (λ h. cc, λ h. cc)
both_iff false b = (λ h. cc, λ h. cc)

module _ (fl : Floating) where
  open fl use {Float64}

  -- Both phases of a pushable result.
  pushable-phases :
      (r : Result Float64)
      → pushable fl r ≡ true
      → (a : Bool) × (b : Bool) × (r.tcp_ok ≡ some a) × (r.tls_ok ≡ some b)
  unfolding pushable
  pushable-phases r h = elim (Option-cases r.tcp_ok) [
    | inl e ↦ absurd (ground (arith, rw e at h))
    | inr (a, e) ↦ elim (Option-cases r.tls_ok) [
      | inl e' ↦ absurd (ground (arith, rw (e, e') at h))
      | inr (b, e') ↦ (a, b, e, e')
    ]
  ]

  -- Of a TLS probe, both phases passed exactly where the result is healthy.
  probe_tls-phases :
      (r : Result Float64)
      → (pushable fl r ≡ true) × ((failed_phase fl r ≡ []) ↔ (r.ok ≡ true))
      → (a : Bool) × (b : Bool) × (r.tcp_ok ≡ some a) × (r.tls_ok ≡ some b) × ((a && b) ≡ r.ok)
  probe_tls-phases r (fits, named) =
      let (a, b, e, e') = pushable-phases r fits in
      let passed = failed_phase_iff fl r a b e e' in
      let both = both_iff a b in
      (
        a,
        b,
        e,
        e',
        same_truth (a && b) r.ok
            ((λ h. named.0 (passed.1 (both.0 h))), λ h. both.1 (passed.0 (named.1 h))),
      )

module _ (rt : Runtime) where
  open rt use {floating}
  open floating use {Float64}

  pub Probed-phases :
      (timeout : ℕ) (t : Target) (r : Result Float64)
      → Probed rt built_in timeout t r
      → asks_tls rt t ≡ true
      → (a : Bool) × (b : Bool) × (r.tcp_ok ≡ some a) × (r.tls_ok ≡ some b) × ((a && b) ≡ r.ok)
  unfolding run_prober
  Probed-phases timeout t r (env, finished, q, probed, e) asked =
      let by_tls : prober_for rt built_in t ≡ ok tls =
        (prober_for_iff rt built_in t tls probers_lem).1
          ((str_eq_iff (or_default t.proto) (kind tls)).0 asked) in
      let shown : expected floating t (probe_tls t env.tls_env) ≡ q =
        some-eq (sym (probe-expected rt built_in t env timeout tls _ by_tls refl) ∙ probed) in
      let projected = to_result-expected floating t (probe_tls t env.tls_env) ∙ ap some shown in
      let (a, b, tcp, tls_ok, up) =
        probe_tls-phases floating q (failed_phase-probe_tls floating t env.tls_env q projected) in
      (a, b, ap (λ x. x.tcp_ok) e ∙ tcp, ap (λ x. x.tls_ok) e ∙ tls_ok, up ∙ sym (ap (λ x. x.ok) e))

module _ (fl : Floating) (characters : Str → Str) where
  open fl use {Float64}

  -- The key that the store files a result under.
  abbrev pub filed_under : Result Float64 → Key
  filed_under r = (characters r.addr, characters r.sni)

  -- Results that are older than a result by their microseconds, as far as they are pushed under its key.
  abbrev pub Older : Result Float64 → List (Result Float64) → Type 0
  Older r xs =
      All
        (λ x.
          pushable fl x ≡ true
          → filed_under x ≡ filed_under r
          → microseconds x.timestamp < microseconds r.timestamp)
        xs

  -- What a result is pushed as, between those of the others.
  pub Ships-split :
      (before after : List (Result Float64)) (r : Result Float64) (prs : List (PushResult Float64))
      → pushable fl r ≡ true
      → Ships fl (before ++ r ∷ after) prs
      → (sent : List (PushResult Float64)) × (pr : PushResult Float64) × (later : List
          (PushResult Float64))
        × (prs ≡ sent ++ pr ∷ later)
        × Ships fl before sent
        × Carries fl r pr
        × Ships fl after later
  Ships-split [] after r prs fits (shipped {r = x} {pr} {prs = later} carries ships) =
      ([], pr, later, refl, nothing, carries, ships)
  Ships-split [] after r prs fits (left_out missing ships) =
      absurd (ground (arith, fits, left_out_lem fl r missing))
  Ships-split (x ∷ before) after r prs fits (shipped {pr = px} carries ships) =
      let (sent, pr, later, e, ships₁, carries', ships₂) =
        Ships-split before after r _ fits ships in
      (px ∷ sent, pr, later, ap (λ l. px ∷ l) e, shipped carries ships₁, carries', ships₂)
  Ships-split (x ∷ before) after r prs fits (left_out missing ships) =
      let (sent, pr, later, e, ships₁, carries', ships₂) =
        Ships-split before after r _ fits ships in
      (sent, pr, later, e, left_out missing ships₁, carries', ships₂)

  earlier : {m n m' n' : ℕ} → m < n → m' ≡ m → n' ≡ n → m' < n'
  earlier h e e' = omega (arith, h, e, e')

  -- In the run, what older results were pushed as is older.
  pub Older-received :
      (r : Result Float64) (k : Key) (x : ResultIn Float64) (rs : List (Result Float64))
      (prs : List (PushResult Float64))
      → Ships fl rs prs
      → k ≡ filed_under r
      → x.ts ≡ microseconds r.timestamp
      → Older r rs
      → All (λ y. key_of y.node ≡ k → (y ≡ x) ⊎ (y.ts < x.ts)) (map (received characters) prs)
  Older-received r k x [] [] nothing same late h = tt
  Older-received r k x [] (py ∷ prs) ships same late h = elim ships [ ]
  Older-received r k x (y ∷ rs) (py ∷ prs) (shipped carries ships) same late h =
      let filed : filed_under y ≡ key_of (ResultIn.node (received characters py)) =
        λ i. (characters (sym carries.1 i), characters (sym carries.2 i)) in
      let fits = pushable_lem fl y py.tcp_ok py.tls_ok carries.6 carries.7 in
      (
        (λ e. inr (earlier (h.0 fits (filed ∙ e ∙ same)) (ap microseconds carries.4) late)),
        Older-received r k x rs prs ships same late h.1,
      )
  Older-received r k x (y ∷ rs) prs (left_out missing ships) same late h =
      Older-received r k x rs prs ships same late h.1
