-- ===== src/Udp/Laws.antt =====
-- The UDP prober of cmd/nodecheck/prober_udp.go: its parameters and its outcomes.
use tunnel_ops.Base.{
  ℕ, ◌≤◌, ◌<◌, Str, false, [], ◌∷◌, none, some, ◌≡◌, refl, ◌≢◌, ◌⊎◌, inl, inr, ◌↔◌, arith, Except,
  ok, wrap-ok, ◌>>=◌, >>=-eq-ok, Except-cases, is_empty-cases,
}
use tunnel_ops.Base.Int.{ℤ, pos, negsuc}
use tunnel_ops.Outcome.{Outcome}
use tunnel_ops.Target.{Target}
use tunnel_ops.Udp.Exchange.{Env, Exchanged, run}
use tunnel_ops.Udp.Exchange.Response.{Stops, run-Stops}
use tunnel_ops.Udp.{
  validate_udp, udp_exchange, exchange_outcome, UdpParams, attempts_of, default_udp_attempts,
  max_udp_attempts, decoded, payload_of, parse_udp_params, probe_udp, config_failure, no_params,
  in_params, in_payload_hex,
}

-- Which settings of `attempts` are accepted, and what they come to.
abbrev pub Allows : ℤ → ℕ → Type 0
Allows a n =
    ((a ≡ pos 0) × (n ≡ default_udp_attempts)) ⊎ ((a ≡ pos n) × (0 < n) × (n ≤ max_udp_attempts))

attempts_of-Allows : (a : ℤ) (n : ℕ) → attempts_of a ≡ ok n → Allows a n
unfolding attempts_of
attempts_of-Allows (pos k) n h = ground arith
attempts_of-Allows (negsuc k) n h = cc

Allows-attempts_of : (a : ℤ) (n : ℕ) → Allows a n → attempts_of a ≡ ok n
unfolding attempts_of
Allows-attempts_of a n (inl (e, e')) = rw (e, e') refl
Allows-attempts_of a n (inr (e, p, q)) = rw (e, attempts_of) (ground arith)

-- The settings that are accepted: zero, which stands for the default, and one to the maximum.
pub attempts_of_iff : (a : ℤ) (n : ℕ) → (attempts_of a ≡ ok n) ↔ Allows a n
attempts_of_iff a n = (attempts_of-Allows a n, Allows-attempts_of a n)

pub attempts_of_bounds : (a : ℤ) (n : ℕ) → attempts_of a ≡ ok n → (0 < n) × (n ≤ max_udp_attempts)
attempts_of_bounds a n h = ground (arith, attempts_of-Allows a n h)

module _ (decode : Str → Except UdpParams) (decode_hex : Str → Except Str) where
  -- Which payload the literal and the hexadecimal setting ask for.
  abbrev pub Asks : Str → Str → Str → Type 0
  Asks literal hex payload =
      ((literal ≡ []) × (hex ≡ []) × (payload ≡ 0 ∷ []))
      ⊎ ((literal ≢ []) × (hex ≡ []) × (payload ≡ literal))
      ⊎ ((literal ≡ []) × (hex ≢ []) × (decode_hex hex ≡ ok payload))

  hex_asked : (h : ℕ) (hs s : Str) → Asks [] (h ∷ hs) s → decode_hex (h ∷ hs) ≡ ok s
  hex_asked h hs s (inl a) = cc
  hex_asked h hs s (inr (inl a)) = absurd (a.0 refl)
  hex_asked h hs s (inr (inr a)) = a.2

  payload_of_iff :
      (literal hex s : Str) → (payload_of decode decode_hex literal hex ≡ ok s) ↔ Asks literal hex s
  unfolding payload_of
  payload_of_iff [] [] s = ground arith
  payload_of_iff (c ∷ cs) [] s = ground arith
  payload_of_iff [] (h ∷ hs) s = (
    λ e. inr (inr (refl, (λ e'. cc), (wrap-ok in_payload_hex (decode_hex (h ∷ hs)) s).0 e)),
    λ a. (wrap-ok in_payload_hex (decode_hex (h ∷ hs)) s).1 (hex_asked h hs s a),
  )
  payload_of_iff (c ∷ cs) (h ∷ hs) s = ground arith

  -- What the bytes of a `params` object decode to: an absent one to the zero value.
  abbrev pub Reads : Str → UdpParams → Type 0
  Reads raw p = ((raw ≡ []) × (p ≡ no_params)) ⊎ ((raw ≢ []) × (decode raw ≡ ok p))

  decoded_iff : (raw : Str) (p : UdpParams) → (decoded decode decode_hex raw ≡ ok p) ↔ Reads raw p
  unfolding decoded
  decoded_iff [] p = ground arith
  decoded_iff (c ∷ cs) p = (
    λ e. inr ((λ e'. cc), (wrap-ok in_params (decode (c ∷ cs)) p).0 e),
    λ a. (wrap-ok in_params (decode (c ∷ cs)) p).1 (present a),
  )
    where
      present : Reads (c ∷ cs) p → decode (c ∷ cs) ≡ ok p
      present (inl a) = cc
      present (inr a) = a.1

  abbrev with_payload : UdpParams → Str → Except (Str × ℕ)
  with_payload p payload = attempts_of p.attempts >>= λ n. ok (payload, n)

  abbrev with_params : UdpParams → Except (Str × ℕ)
  with_params p = payload_of decode decode_hex p.payload p.payload_hex >>= with_payload p

  -- `parseUDPParams` accepts an object exactly when it decodes, asks for at most one payload, and
  -- gives an allowed number of attempts; it returns that payload and that number.
  pub parse_udp_params_iff :
      (raw s : Str) (n : ℕ)
      → (parse_udp_params decode decode_hex raw ≡ ok (s, n))
        ↔ ((p : UdpParams) × Reads raw p × Asks p.payload p.payload_hex s × Allows p.attempts n)
  unfolding parse_udp_params
  parse_udp_params_iff raw s n = (forth, back)
    where
      forth :
          parse_udp_params decode decode_hex raw ≡ ok (s, n)
          → (p : UdpParams) × Reads raw p × Asks p.payload p.payload_hex s × Allows p.attempts n
      forth h =
          let (p, e, h₁) = >>=-eq-ok (decoded decode decode_hex raw) with_params h in
          let (s', e', h₂) =
            >>=-eq-ok (payload_of decode decode_hex p.payload p.payload_hex) (with_payload p) h₁ in
          let (n', e'', h₃) = >>=-eq-ok (attempts_of p.attempts) (λ k. ok (s', k)) h₂ in
          let same_s : s' ≡ s = cc in
          let same_n : n' ≡ n = cc in
          (
            p,
            (decoded_iff raw p).0 e,
            (payload_of_iff p.payload p.payload_hex s).0 (rw same_s at e'),
            (attempts_of_iff p.attempts n).0 (rw same_n at e''),
          )

      back :
          ((p : UdpParams) × Reads raw p × Asks p.payload p.payload_hex s × Allows p.attempts n)
          → parse_udp_params decode decode_hex raw ≡ ok (s, n)
      back (p, r, a, l) = rw (
        (decoded_iff raw p).1 r,
        (payload_of_iff p.payload p.payload_hex s).1 a,
        (attempts_of_iff p.attempts n).1 l,
      )

  -- Accepted parameters ask for an attempt.
  pub parse_udp_params-attempts :
      (raw s : Str) (n : ℕ) → parse_udp_params decode decode_hex raw ≡ ok (s, n) → 0 < n
  parse_udp_params-attempts raw s n parsed =
      let (p, read, asks, allows) = (parse_udp_params_iff raw s n).0 parsed in
      (attempts_of_bounds p.attempts n ((attempts_of_iff p.attempts n).1 allows)).0

  -- The prober never panics, makes no claim beyond liveness, and stops at the first phase that
  -- fails.
  pub probe_udp-Stops :
      (t : Target) (env : Env) (timeout : ℕ)
      → (o : Outcome) × (probe_udp decode decode_hex t env timeout ≡ some o)
        × Stops o.phases
        × (o.no_liveness_claim ≡ false)
        × (o.tls ≡ none)
  unfolding probe_udp
  probe_udp-Stops t env timeout =
      elim (Except-cases (parse_udp_params decode decode_hex t.params)) [
        | inr (e, failed) ↦ rw failed (config_failure false e, refl, tt, refl, refl)
        | inl ((payload, n), parsed) ↦
            let (r, ran, stops) =
              run-Stops (udp_exchange decode decode_hex t (payload, n)) env timeout
                (parse_udp_params-attempts t.params payload n parsed) in
            (exchange_outcome false r.phases, rw (parsed, ran) refl, stops, refl, refl)
      ]

  -- With accepted parameters, a probe is the exchange that they ask for.
  parsed-probe_udp :
      (t : Target) (payload : Str) (n : ℕ) (env : Env) (timeout : ℕ)
      → parse_udp_params decode decode_hex t.params ≡ ok (payload, n)
      → (r : Exchanged) × (run (udp_exchange decode decode_hex t (payload, n)) env timeout ≡ some r)
        × (probe_udp decode decode_hex t env timeout ≡ some (exchange_outcome false r.phases))
  unfolding probe_udp
  parsed-probe_udp t payload n env timeout parsed =
      let (r, ran, stops) =
        run-Stops (udp_exchange decode decode_hex t (payload, n)) env timeout
          (parse_udp_params-attempts t.params payload n parsed) in
      (r, ran, rw (parsed, ran) refl)

  -- A validated target is never reported as badly configured: it has an address and accepted
  -- parameters, and each of its probes is the exchange that they ask for.
  pub validate_udp-probe_udp :
      (t : Target)
      → validate_udp decode decode_hex t ≡ none
      → (t.addr ≢ [])
        × ((payload : Str) × (n : ℕ) × (parse_udp_params decode decode_hex t.params
              ≡ ok (payload, n))
            × ((env : Env) (timeout : ℕ)
                → (r : Exchanged) × (run (udp_exchange decode decode_hex t (payload, n)) env timeout
                    ≡ some r)
                  × (probe_udp decode decode_hex t env timeout
                      ≡ some (exchange_outcome false r.phases))))
  unfolding validate_udp
  validate_udp-probe_udp t valid = elim (is_empty-cases t.addr) [
    | inl (missing, e) ↦ absurd (ground (arith, rw e at valid))
    | inr (there, e) ↦ elim (Except-cases (parse_udp_params decode decode_hex t.params)) [
      | inr (text, failed) ↦ absurd (ground (arith, failed, e, valid))
      | inl ((payload, n), parsed) ↦ (
        there,
        (payload, n, parsed, λ env timeout. parsed-probe_udp t payload n env timeout parsed),
      )
    ]
  ]
