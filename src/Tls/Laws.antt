-- ===== src/Tls/Laws.antt =====
-- What the TLS prober of cmd/nodecheck/prober_tls.go reports, through `toResult` of prober.go.
use tunnel_ops.Base.{
  str_eq, Str, is_empty, true, false, List, [], ◌∷◌, Option, none, some, ◌≡◌, refl, inl, inr, ◌↔◌,
  ◌∙◌, sym, ap, arith, Bool-cases,
}
use tunnel_ops.Target.{Floating, Target, Result}
use tunnel_ops.Outcome.{Phase, TlsInfo, Outcome, to_result}
use tunnel_ops.Outcome.Expected.{expected, matched, sni_of, passes, has_legacy}
use tunnel_ops.Outcome.Laws.{expected_of_to_result}
use tunnel_ops.Tls.{
  TlsEnv, TlsDial, dial_error, other_conn, tls_conn, Certificate, ConnectionState, effective_sni,
  inspect_leaf, outcome, named, handshake, connect, probe_tls,
}

-- The connection and the handshake both succeed.
abbrev pub Shook : TlsEnv → ConnectionState → Type 0
Shook env state = (env.tcp_error ≡ none) × (env.tls_dial ≡ tls_conn state)

-- The leaf that was presented is for a name.
abbrev pub Covers : List Certificate → Str → Type 0
Covers chain sni =
    (leaf : Certificate) × (rest : List Certificate) × (chain ≡ leaf ∷ rest)
    × (leaf.verify_hostname sni ≡ none)

abbrev Matches : Option TlsInfo → Type 0
Matches none = ⊥
Matches (some info) = info.cert_match ≡ true

abbrev Asked : Option TlsInfo → Str → Type 0
Asked none sni = ⊥
Asked (some info) sni = info.server_name ≡ sni

inspect_leaf-Covers :
    (chain : List Certificate) (info : TlsInfo)
    → info.cert_match ≡ false
    → ((inspect_leaf chain info).cert_match ≡ true) ↔ Covers chain info.server_name
unfolding inspect_leaf
inspect_leaf-Covers [] info h = (λ e. cc, λ c. cc)
inspect_leaf-Covers (leaf ∷ chain) info h = (
  λ e. (leaf, chain, refl, ground (arith, e)),
  λ c.
      let (first, rest, same, fits) = c in
      let named_alike : first ≡ leaf = cc in
      let fits' : leaf.verify_hostname info.server_name ≡ none = rw named_alike at fits in
      rw fits' refl,
)

inspect_leaf-server_name :
    (chain : List Certificate) (info : TlsInfo)
    → (inspect_leaf chain info).server_name ≡ info.server_name
unfolding inspect_leaf
inspect_leaf-server_name [] info = refl
inspect_leaf-server_name (leaf ∷ chain) info = refl

record Told (t : Target) (env : TlsEnv) (o : Outcome) : Type 0 where
  legacy : has_legacy o.phases ≡ true
  claims : o.no_liveness_claim ≡ false
  healthy : (passes o.phases ≡ true) ↔ ((state : ConnectionState) × Shook env state)
  matching : Matches o.tls ↔ (
      (state : ConnectionState) × Shook env state
      × Covers state.peer_certificates (effective_sni t env))
  asked : Asked o.tls (effective_sni t env)

-- Where no handshake succeeds, the last phase fails.
unshaken :
    (t : Target) (env : TlsEnv) (phs : List Phase)
    → has_legacy phs ≡ true
    → passes phs ≡ false
    → ((state : ConnectionState) → Shook env state → ⊥)
    → Told t env (outcome phs (named (effective_sni t env)))
unshaken t env phs l f never = record {
  legacy = l;
  claims = refl;
  healthy = (λ e. cc, λ p. let (state, shook) = p in absurd (never state shook));
  matching = (λ e. cc, λ p. let (state, shook, covers) = p in absurd (never state shook));
  asked = refl;
}

handshake-Told :
    (t : Target) (env : TlsEnv) (d : TlsDial)
    → env.tcp_error ≡ none
    → env.tls_dial ≡ d
    → Told t env (handshake env (effective_sni t env) d)
unfolding handshake str_eq
handshake-Told t env (dial_error e) h k = unshaken t env _ refl refl (λ state p. cc)
handshake-Told t env other_conn h k = unshaken t env _ refl refl (λ state p. cc)
handshake-Told t env (tls_conn state) h k = record {
  legacy = refl;
  claims = refl;
  healthy = (λ e. (state, (h, k)), λ p. refl);
  matching = (
    λ e. (state, (h, k), (inspect_leaf-Covers state.peer_certificates _ refl).0 e),
    λ p.
        let (other, shook, covers) = p in
        let same : other ≡ state = cc in
        (inspect_leaf-Covers state.peer_certificates _ refl).1 (rw same at covers),
  );
  asked = inspect_leaf-server_name state.peer_certificates _;
}

connect-Told :
    (t : Target) (env : TlsEnv) (e : Option Str)
    → env.tcp_error ≡ e
    → Told t env (connect env (effective_sni t env) e)
unfolding connect str_eq
connect-Told t env (some e) h = unshaken t env _ refl refl (λ state p. cc)
connect-Told t env none h = handshake-Told t env env.tls_dial h refl

pub probe_tls-claims : (t : Target) (env : TlsEnv) → (probe_tls t env).no_liveness_claim ≡ false
unfolding probe_tls
probe_tls-claims t env = (connect-Told t env env.tcp_error refl).claims

matched_iff : (i : Option TlsInfo) → (some (matched i) ≡ some true) ↔ Matches i
matched_iff none = (λ e. cc, λ e. absurd e)
matched_iff (some info) = (λ e. cc, λ e. ap some e)

sni_of-Asked :
    (sni asked : Str) (i : Option TlsInfo)
    → Asked i asked
    → (is_empty asked ≡ true → sni ≡ asked)
    → sni_of sni i ≡ asked
sni_of-Asked sni asked none h k = absurd h
sni_of-Asked sni asked (some info) h k = ground arith

nil_of_is_empty : (s : Str) → is_empty s ≡ true → s ≡ []
nil_of_is_empty [] h = refl
nil_of_is_empty (b ∷ bs) h = cc

effective_sni-empty :
    (t : Target) (env : TlsEnv)
    → is_empty (effective_sni t env) ≡ true
    → t.sni ≡ effective_sni t env
unfolding effective_sni
effective_sni-empty t env h = elim (Bool-cases (is_empty t.sni)) [
  | inl e ↦ nil_of_is_empty t.sni e ∙ sym (nil_of_is_empty (effective_sni t env) h)
  | inr e ↦ rw e refl
]

module _ (fl : Floating) where
  open fl use {Float64}

  Told-expected :
      (t : Target) (env : TlsEnv) (o : Outcome)
      → Told t env o
      → (((expected fl t o).ok ≡ true) ↔ ((state : ConnectionState) × Shook env state))
        × (((expected fl t o).cert_match ≡ some true) ↔ (
            (state : ConnectionState) × Shook env state
            × Covers state.peer_certificates (effective_sni t env)))
        × ((expected fl t o).sni ≡ effective_sni t env)
  Told-expected t env o told = (
    told.healthy,
    (
      λ e. told.matching.0 ((matched_iff o.tls).0 (rw told.legacy at e)),
      λ p. rw told.legacy ((matched_iff o.tls).1 (told.matching.1 p)),
    ),
    sni_of-Asked t.sni (effective_sni t env) o.tls told.asked (effective_sni-empty t env),
  )

  -- A node is healthy exactly when both the connection and the handshake succeed; its certificate
  -- matches exactly when, besides, the leaf that was presented is for the name that was asked for;
  -- and that name, the configured one or else the host of the address, is the one shown.
  pub probe_tls-healthy_iff :
      (t : Target) (env : TlsEnv) (r : Result Float64)
      → to_result fl t (probe_tls t env) ≡ some r
      → ((r.ok ≡ true) ↔ ((state : ConnectionState) × Shook env state))
        × ((r.cert_match ≡ some true) ↔ (
            (state : ConnectionState) × Shook env state
            × Covers state.peer_certificates (effective_sni t env)))
        × (r.sni ≡ effective_sni t env)
  unfolding probe_tls
  probe_tls-healthy_iff t env r h =
      rw (← expected_of_to_result fl t (probe_tls t env) h)
        (Told-expected t env (probe_tls t env) (connect-Told t env env.tcp_error refl))
