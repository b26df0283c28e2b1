-- ===== src/Outcome/Expected.antt =====
-- What `toResult` of cmd/nodecheck/prober.go promises, written without pointers or assignments, and
-- that the code computes just that.
use tunnel_ops.Base.{
  Str, codes, str_eq, str_eq_iff, Bool, true, false, ◌||◌, Option, none, some, List, [], ◌∷◌, ◌++◌,
  map, if◌then◌else◌, is_empty, ◌≡◌, refl, ap, inl, inr, Bool-cases, arith,
}
use tunnel_ops.Target.{Floating, Target, Result, new_result}
use tunnel_ops.Outcome.{
  phase_tcp, phase_tls, Phase, TlsInfo, Outcome, first_failing, any_legacy, phase_json, shape,
  case_tcp, case_tls, record_phase, record_phases, record_tls, conclude, to_result,
}

-- What the last phase of a name says, or the default where the name does not occur.
abbrev pub last_named {ℓ} : {A : Type ℓ} → Str → (Phase → A) → List Phase → A → A
last_named n f [] d = d
last_named n f (ph ∷ phs) d = last_named n f phs (if str_eq ph.name n then f ph else d)

abbrev pub all_ok : List Phase → Bool
all_ok [] = true
all_ok (ph ∷ phs) = if ph.ok then all_ok phs else false

-- The name and the message of the first phase that failed.
abbrev pub blame : List Phase → Str
blame [] = []
blame (ph ∷ phs) = if ph.ok then blame phs else ph.name ++ codes ": " ++ ph.err

abbrev pub passes : List Phase → Bool
passes [] = false
passes (ph ∷ phs) = all_ok (ph ∷ phs)

abbrev pub has_legacy : List Phase → Bool
has_legacy [] = false
has_legacy (ph ∷ phs) = str_eq ph.name phase_tcp || str_eq ph.name phase_tls || has_legacy phs

-- A field that only the tcp and tls family of probes has.
abbrev pub only_if {ℓ} : {A : Type ℓ} → Bool → A → Option A
only_if false v = none
only_if true v = some v

abbrev pub sni_of : Str → Option TlsInfo → Str
sni_of sni none = sni
sni_of sni (some info) = if is_empty info.server_name then sni else info.server_name

abbrev pub tls_text : (TlsInfo → Str) → Option TlsInfo → Str
tls_text f none = []
tls_text f (some info) = f info

abbrev pub matched : Option TlsInfo → Bool
matched none = false
matched (some info) = info.cert_match

module _ (fl : Floating) where
  open fl use {Float64, zero_float, seconds}

  abbrev pub expected : Target → Outcome → Result Float64
  expected t o =
      let legacy : Bool = has_legacy o.phases in
      record {
        target = record t { params = []; sni = sni_of t.sni o.tls };
        ok = passes o.phases;
        tcp_ok = only_if legacy (last_named phase_tcp (λ ph. ph.ok) o.phases false);
        tls_ok = only_if legacy (last_named phase_tls (λ ph. ph.ok) o.phases false);
        timestamp = 0;
        tcp_time =
            only_if legacy (last_named phase_tcp (λ ph. seconds ph.duration) o.phases zero_float);
        tls_time =
            only_if legacy (last_named phase_tls (λ ph. seconds ph.duration) o.phases zero_float);
        tls_ver = tls_text (λ info. info.version) o.tls;
        alpn = tls_text (λ info. info.alpn) o.tls;
        cert_cn = tls_text (λ info. info.cert_cn) o.tls;
        cert_match = only_if legacy (matched o.tls);
        error = blame o.phases;
        phases = if legacy then [] else map (phase_json fl) o.phases;
        no_liveness_claim = o.no_liveness_claim;
      }

any_legacy-has_legacy : (phs : List Phase) → any_legacy phs ≡ has_legacy phs
unfolding any_legacy
any_legacy-has_legacy [] = refl
any_legacy-has_legacy (ph ∷ phs) = ground (arith, any_legacy-has_legacy phs)

tcp-ne-tls : (n : Str) → str_eq n phase_tcp ≡ true → str_eq n phase_tls ≡ false
unfolding str_eq
tcp-ne-tls n h = rw ((str_eq_iff n phase_tcp).0 h) refl

-- The last of the assignments, once the pointers are there.
module _ (fl : Floating) (res : Result (Floating.Float64 fl)) where
  open fl use {Float64, seconds}

  abbrev with_fields : Bool → Bool → Float64 → Float64 → Result Float64
  with_fields a b c d = record res {
    tcp_ok = some a;
    tls_ok = some b;
    tcp_time = some c;
    tls_time = some d;
  }

  record_phases-legacy :
      (phs : List Phase) (a b : Bool) (c d : Float64)
      → record_phases fl (with_fields a b c d) phs
        ≡ some (
            with_fields
              (last_named phase_tcp (λ ph. ph.ok) phs a)
              (last_named phase_tls (λ ph. ph.ok) phs b)
              (last_named phase_tcp (λ ph. seconds ph.duration) phs c)
              (last_named phase_tls (λ ph. seconds ph.duration) phs d))
  unfolding record_phases record_phase case_tcp case_tls
  record_phases-legacy [] a b c d = refl
  record_phases-legacy (ph ∷ phs) a b c d = elim (Bool-cases (str_eq ph.name phase_tcp)) [
    | inl e ↦
        rw (e, tcp-ne-tls ph.name e) (record_phases-legacy phs ph.ok b (seconds ph.duration) d)
    | inr e ↦ elim (Bool-cases (str_eq ph.name phase_tls)) [
      | inl e' ↦ rw (e, e') (record_phases-legacy phs a ph.ok c (seconds ph.duration))
      | inr e' ↦ rw (e, e') (record_phases-legacy phs a b c d)
    ]
  ]

  record_phases-none :
      (phs : List Phase) → has_legacy phs ≡ false → record_phases fl res phs ≡ some res
  unfolding record_phases record_phase
  record_phases-none [] h = refl
  record_phases-none (ph ∷ phs) h = ground (arith, record_phases-none phs)

abbrev Blames : List Phase → Option Phase → Type 0
Blames phs none = (all_ok phs ≡ true) × (blame phs ≡ [])
Blames phs (some bad) = (all_ok phs ≡ false) × (blame phs ≡ bad.name ++ codes ": " ++ bad.err)

first_failing-Blames : (phs : List Phase) → Blames phs (first_failing phs)
unfolding first_failing
first_failing-Blames [] = (refl, refl)
first_failing-Blames (ph ∷ phs) = elim (Bool-cases ph.ok) [
  | inl e ↦ rw e (first_failing-Blames phs)
  | inr e ↦ rw e (refl, refl)
]

module _ (fl : Floating) where
  open fl use {Float64, zero_float, seconds}

  conclude_lem :
      (o : Outcome) (res : Result Float64)
      → res.ok ≡ false
      → res.error ≡ []
      → conclude fl o res ≡ record res { ok = passes o.phases; error = blame o.phases }
  unfolding conclude
  conclude_lem o res unset clean = ground (arith, first_failing-Blames o.phases)

  -- The result before the loop over the phases.
  abbrev start : Target → Outcome → Result Float64
  start t o = record (new_result t) { no_liveness_claim = o.no_liveness_claim }

  finish :
      (t : Target) (o : Outcome) (res : Result Float64)
      → record_phases fl (shape fl o (start t o)) o.phases ≡ some res
      → conclude fl o (record_tls fl o.tls res) ≡ expected fl t o
      → to_result fl t o ≡ some (expected fl t o)
  unfolding to_result
  finish t o res e f = rw e (ap some f)

  -- The result after the loop, for either family.
  abbrev legacy_start : Target → Outcome → Result Float64
  legacy_start t o = record (start t o) { cert_match = some false }

  abbrev legacy_end : Target → Outcome → Result Float64
  legacy_end t o =
      with_fields fl (legacy_start t o) (last_named phase_tcp (λ ph. ph.ok) o.phases false)
        (last_named phase_tls (λ ph. ph.ok) o.phases false)
        (last_named phase_tcp (λ ph. seconds ph.duration) o.phases zero_float)
        (last_named phase_tls (λ ph. seconds ph.duration) o.phases zero_float)

  abbrev other_end : Target → Outcome → Result Float64
  other_end t o = record (start t o) { phases = map (phase_json fl) o.phases }

  end-legacy :
      (t : Target) (o : Outcome)
      → has_legacy o.phases ≡ true
      → conclude fl o (record_tls fl o.tls (legacy_end t o)) ≡ expected fl t o
  unfolding record_tls new_result
  end-legacy t o e = ground (arith, conclude_lem o (record_tls fl o.tls (legacy_end t o)))

  end-other :
      (t : Target) (o : Outcome)
      → has_legacy o.phases ≡ false
      → conclude fl o (record_tls fl o.tls (other_end t o)) ≡ expected fl t o
  unfolding record_tls new_result
  end-other t o e = ground (arith, conclude_lem o (record_tls fl o.tls (other_end t o)))

module _ (fl : Floating) where
  open fl use {zero_float}

  -- `toResult` never writes through a nil pointer, whatever the outcome, and returns the expected
  -- result: the one that is read off the outcome's phases and TLS details field by field.
  pub to_result-expected : (t : Target) (o : Outcome) → to_result fl t o ≡ some (expected fl t o)
  unfolding shape
  to_result-expected t o = elim (Bool-cases (has_legacy o.phases)) [
    | inl e ↦
        finish fl t o (legacy_end fl t o)
          (rw (any_legacy-has_legacy o.phases, e)
            (record_phases-legacy fl (legacy_start fl t o) o.phases false false zero_float
              zero_float))
          (end-legacy fl t o e)
    | inr e ↦
        finish fl t o (other_end fl t o)
          (rw (any_legacy-has_legacy o.phases, e) (record_phases-none fl _ o.phases e))
          (end-other fl t o e)
  ]
