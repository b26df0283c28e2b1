-- ===== src/Report/Lines.antt =====
-- The lines that `writeProm` of cmd/nodecheck/main.go writes.
use tunnel_ops.Base.{
  count_where, ℕ, ◌+◌, ◌==◌, Str, codes, decimal, Bool, true, false, List, [], ◌∷◌, ◌++◌, Option,
  none, some, if◌then◌else◌, ◌≡◌, refl, ◌∙◌, arith, is_some,
}
use tunnel_ops.Target.{Floating, Result}
use tunnel_ops.Report.{
  family, escape_label, newline, bool_to_int, up_name, up_help, tcp_name, tcp_help, tls_name,
  tls_help, cert_name, cert_help, sent_name, sent_help, labels, sample, up_samples, timed,
  tcp_samples, tls_samples, matching, cert_samples, initiation_samples, write_prom,
}
use tunnel_ops.Report.Escape.{escaped, escape, escape_label-escape}

abbrev pub newlines : Str → ℕ
newlines [] = 0
newlines (b ∷ bs) = (if b == newline then 1 else 0) + newlines bs

pub newlines-append : (s t : Str) → newlines (s ++ t) ≡ newlines s + newlines t
newlines-append [] t = omega arith
newlines-append (b ∷ bs) t = omega (arith, newlines-append bs t)

newlines-escaped : (b : ℕ) → newlines (escaped b) ≡ 0
newlines-escaped b = ground arith

newlines-escape : (s : Str) → newlines (escape s) ≡ 0
newlines-escape [] = refl
newlines-escape (b ∷ bs) =
    omega (arith, newlines-append (escaped b) (escape bs), newlines-escaped b, newlines-escape bs)

pub newlines-escape_label : (s : Str) → newlines (escape_label s) ≡ 0
newlines-escape_label s = rw (escape_label-escape s) (newlines-escape s)

newlines-family :
    (name help samples : Str)
    → newlines name ≡ 0
    → newlines help ≡ 0
    → newlines (family name help samples) ≡ 2 + newlines samples
unfolding family
newlines-family name help samples h k = omega (
  arith,
  h,
  k,
  newlines-append (codes "# HELP ") name,
  newlines-append (codes "# HELP " ++ name) (codes " "),
  newlines-append (codes "# HELP " ++ name ++ codes " ") help,
  newlines-append (codes "# HELP " ++ name ++ codes " " ++ help) (newline ∷ []),
  newlines-append (codes "# TYPE ") name,
  newlines-append (codes "# TYPE " ++ name) (codes " gauge"),
  newlines-append (codes "# TYPE " ++ name ++ codes " gauge") (newline ∷ []),
  newlines-append (codes "# TYPE " ++ name ++ codes " gauge" ++ newline ∷ []) samples,
  newlines-append (codes "# HELP " ++ name ++ codes " " ++ help ++ newline ∷ [])
      (codes "# TYPE " ++ name ++ codes " gauge" ++ newline ∷ [] ++ samples),
)

newlines-families :
    (name help samples rest : Str)
    → newlines name ≡ 0
    → newlines help ≡ 0
    → newlines (family name help samples ++ rest) ≡ 2 + newlines samples + newlines rest
newlines-families name help samples rest h k =
    omega (
      arith,
      newlines-append (family name help samples) rest,
      newlines-family name help samples h k,
    )

module _ (fl : Floating) where
  open fl use {Float64, fixed4}

  newlines-labels : (r : Result Float64) → newlines (labels fl r) ≡ 0
  unfolding labels
  newlines-labels r = omega (
    arith,
    newlines-append
        (codes "node=\"" ++ escape_label r.name ++ codes "\",region=\"" ++ escape_label r.region)
        (codes "\""),
    newlines-append (codes "node=\"" ++ escape_label r.name ++ codes "\",region=\"")
        (escape_label r.region),
    newlines-append (codes "node=\"" ++ escape_label r.name) (codes "\",region=\""),
    newlines-append (codes "node=\"") (escape_label r.name),
    newlines-escape_label r.name,
    newlines-escape_label r.region,
  )

  newlines-sample :
      (name : Str) (r : Result Float64) (value : Str)
      → newlines (sample fl name r value) ≡ newlines name + newlines value + 1
  unfolding sample
  newlines-sample name r value = omega (
    arith,
    newlines-append (name ++ codes "{" ++ labels fl r ++ codes "} " ++ value) (newline ∷ []),
    newlines-append (name ++ codes "{" ++ labels fl r ++ codes "} ") value,
    newlines-append (name ++ codes "{" ++ labels fl r) (codes "} "),
    newlines-append (name ++ codes "{") (labels fl r),
    newlines-append name (codes "{"),
    newlines-labels r,
  )

  newlines-truth : (b : Bool) → newlines (decimal (bool_to_int b)) ≡ 0
  unfolding decimal
  newlines-truth true = refl
  newlines-truth false = refl

  abbrev pub claims : Result Float64 → Bool
  claims r = if r.no_liveness_claim then false else true

  newlines-up_samples :
      (rs : List (Result Float64)) → newlines (up_samples fl rs) ≡ count_where claims rs
  unfolding up_samples
  newlines-up_samples [] = refl
  newlines-up_samples (r ∷ rs) =
      let line = sample fl up_name r (decimal (bool_to_int r.ok)) in
      ground (
        arith,
        newlines-append line (up_samples fl rs),
        newlines-sample up_name r (decimal (bool_to_int r.ok)),
        newlines-truth r.ok,
        newlines-up_samples rs,
      )

  newlines-initiation_samples :
      (rs : List (Result Float64))
      → newlines (initiation_samples fl rs) ≡ count_where (λ r. r.no_liveness_claim) rs
  unfolding initiation_samples
  newlines-initiation_samples [] = refl
  newlines-initiation_samples (r ∷ rs) =
      let line = sample fl sent_name r (decimal (bool_to_int r.ok)) in
      ground (
        arith,
        newlines-append line (initiation_samples fl rs),
        newlines-sample sent_name r (decimal (bool_to_int r.ok)),
        newlines-truth r.ok,
        newlines-initiation_samples rs,
      )

  newlines-cert_samples :
      (rs : List (Result Float64))
      → newlines (cert_samples fl rs) ≡ count_where (λ r. is_some r.cert_match) rs
  unfolding cert_samples
  newlines-cert_samples [] = refl
  newlines-cert_samples (r ∷ rs) = omega (
    arith,
    newlines-append (matching fl r r.cert_match) (cert_samples fl rs),
    one r.cert_match,
    newlines-cert_samples rs,
  )
    where
      one : (o : Option Bool) → newlines (matching fl r o) ≡ (if is_some o then 1 else 0)
      one none = unfold matching in refl
      one (some b) =
          unfold matching in
          omega (arith, newlines-sample cert_name r (decimal (bool_to_int b)), newlines-truth b)

  -- `%.4f` writes no line break.
  module _ (one_line : (x : Float64) → newlines (fixed4 x) ≡ 0) where
    newlines-timed :
        (name : Str) (r : Result Float64) (o : Option Float64)
        → newlines name ≡ 0
        → newlines (timed fl name r o) ≡ (if is_some o then 1 else 0)
    unfolding timed
    newlines-timed name r none h = refl
    newlines-timed name r (some t) h = omega (arith, newlines-sample name r (fixed4 t), one_line t)

    newlines-tcp_samples :
        (rs : List (Result Float64))
        → newlines (tcp_samples fl rs) ≡ count_where (λ r. is_some r.tcp_time) rs
    unfolding tcp_samples
    newlines-tcp_samples [] = refl
    newlines-tcp_samples (r ∷ rs) = omega (
      arith,
      newlines-append (timed fl tcp_name r r.tcp_time) (tcp_samples fl rs),
      newlines-timed tcp_name r r.tcp_time refl,
      newlines-tcp_samples rs,
    )

    newlines-tls_samples :
        (rs : List (Result Float64))
        → newlines (tls_samples fl rs) ≡ count_where (λ r. is_some r.tls_time) rs
    unfolding tls_samples
    newlines-tls_samples [] = refl
    newlines-tls_samples (r ∷ rs) = omega (
      arith,
      newlines-append (timed fl tls_name r r.tls_time) (tls_samples fl rs),
      newlines-timed tls_name r r.tls_time refl,
      newlines-tls_samples rs,
    )

    -- Provided that no formatted number holds a line break: the ten lines that declare the families are always written, and besides them one line for
    -- each result in each family that it belongs to, whatever bytes the names hold: liveness, the
    -- phases that were measured, a checked certificate, or an initiation that claims no liveness.
    pub newlines-write_prom :
        (rs : List (Result Float64))
        → newlines (write_prom fl rs)
          ≡ 10
            + count_where claims rs
            + count_where (λ r. is_some r.tcp_time) rs
            + count_where (λ r. is_some r.tls_time) rs
            + count_where (λ r. is_some r.cert_match) rs
            + count_where (λ r. r.no_liveness_claim) rs
    unfolding write_prom
    newlines-write_prom rs =
        newlines-families up_name up_help (up_samples fl rs)
          (family tcp_name tcp_help (tcp_samples fl rs)
            ++ (family tls_name tls_help (tls_samples fl rs)
                ++ (family cert_name cert_help (cert_samples fl rs)
                    ++ family sent_name sent_help (initiation_samples fl rs))))
          refl refl
        ∙ omega (
          arith,
          newlines-families tcp_name tcp_help (tcp_samples fl rs)
              (family tls_name tls_help (tls_samples fl rs)
                ++ (family cert_name cert_help (cert_samples fl rs)
                    ++ family sent_name sent_help (initiation_samples fl rs)))
              refl refl,
          newlines-families tls_name tls_help (tls_samples fl rs)
              (family cert_name cert_help (cert_samples fl rs)
                ++ family sent_name sent_help (initiation_samples fl rs))
              refl refl,
          newlines-families cert_name cert_help (cert_samples fl rs)
              (family sent_name sent_help (initiation_samples fl rs)) refl refl,
          newlines-family sent_name sent_help (initiation_samples fl rs) refl refl,
          newlines-up_samples rs,
          newlines-tcp_samples rs,
          newlines-tls_samples rs,
          newlines-cert_samples rs,
          newlines-initiation_samples rs,
        )
