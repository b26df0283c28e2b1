-- ===== src/Loading/Laws.antt =====
-- Which target lists `loadTargets` of cmd/nodecheck/main.go accepts.
use mathlib.Core.Path.{subst}
use tunnel_ops.Base.{
  ℕ, suc, Str, codes, List, [], ◌∷◌, ◌++◌, Option, none, some, ◌≡◌, refl, sym, ap, ◌≢◌, ◌↔◌, Except,
  ok, ◌>>=◌, ◌>>◌, >>=-eq-ok, wrap, wrap-ok, fail_if,
}
use tunnel_ops.Target.{Target}
use tunnel_ops.WireGuard.{Setting}
use tunnel_ops.WireGuard.Primitives.{Crypto}
use tunnel_ops.Prober.{Prober, kind, Registry, Runtime, prober_for, validate}
use tunnel_ops.Loading.{at_target, has_none, refuse, check_target, check_targets, load_targets}

refuse_iff : (prefix : Str) (o : Option Str) → (refuse prefix o ≡ ok tt) ↔ (o ≡ none)
refuse_iff prefix none = (λ h. refl, λ h. refl)
refuse_iff prefix (some e) = (λ h. cc, λ h. cc)

module _ (rt : Runtime) (unmarshal : Str → Except (List Target))
    (generated : ℕ → Except (Crypto.PrivateKey (Setting.crypto rt.setting))) (ps : Registry) where
  -- A target with a prober that takes it.
  abbrev pub Valid : ℕ → Target → Type 0
  Valid i t = (p : Prober) × (prober_for rt ps t ≡ ok p) × (validate rt p t (generated i) ≡ none)

  abbrev pub AllValid : ℕ → List Target → Type 0
  AllValid i [] = Unit
  AllValid i (t ∷ ts) = Valid i t × AllValid (suc i) ts

  check_target_iff :
      (path : Str) (i : ℕ) (t : Target)
      → (check_target rt unmarshal generated ps path i t ≡ ok tt) ↔ Valid i t
  unfolding check_target
  check_target_iff path i t = (forth, back)
    where
      forth : check_target rt unmarshal generated ps path i t ≡ ok tt → Valid i t
      forth h =
          let (p, e, h₁) =
            >>=-eq-ok (wrap (at_target path i t) (prober_for rt ps t))
              (λ p.
                refuse (at_target path i t ++ kind p ++ codes ": ") (validate rt p t (generated i)))
              h in
          (p, (wrap-ok (at_target path i t) (prober_for rt ps t) p).0 e, (refuse_iff _ _).0 h₁)

      back : Valid i t → check_target rt unmarshal generated ps path i t ≡ ok tt
      back (p, e, valid) = rw e ((refuse_iff _ _).1 valid)

  check_targets_iff :
      (path : Str) (i : ℕ) (ts : List Target)
      → (check_targets rt unmarshal generated ps path i ts ≡ ok tt) ↔ AllValid i ts
  unfolding check_targets
  check_targets_iff path i [] = (λ h. tt, λ h. refl)
  check_targets_iff path i (t ∷ ts) = (
    λ h.
        let (u, e, h₁) =
          >>=-eq-ok (check_target rt unmarshal generated ps path i t)
            (λ u. check_targets rt unmarshal generated ps path (suc i) ts) h in
        ((check_target_iff path i t).0 e, (check_targets_iff path (suc i) ts).0 h₁),
    λ a. rw ((check_target_iff path i t).1 a.0) ((check_targets_iff path (suc i) ts).1 a.1),
  )

  checked : Str → List Target → Except (List Target)
  checked path ts =
      fail_if (has_none ts) (codes "target list is empty: " ++ path)
      >> (check_targets rt unmarshal generated ps path 0 ts >> ok ts)

  checked_iff :
      (path : Str) (us ts : List Target)
      → (checked path us ≡ ok ts) ↔ ((us ≡ ts) × (ts ≢ []) × AllValid 0 ts)
  unfolding checked
  checked_iff path [] ts = (λ h. cc, λ h. absurd (h.1 (sym h.0)))
  checked_iff path (u ∷ us) ts = (forth, back)
    where
      forth : checked path (u ∷ us) ≡ ok ts → (u ∷ us ≡ ts) × (ts ≢ []) × AllValid 0 ts
      forth h =
          let (v, e, h₁) =
            >>=-eq-ok (check_targets rt unmarshal generated ps path 0 (u ∷ us)) (λ v. ok (u ∷ us))
              h in
          let same : u ∷ us ≡ ts = cc in
          (
            same,
            (λ k. cc),
            subst (λ x. AllValid 0 x) same ((check_targets_iff path 0 (u ∷ us)).0 e),
          )

      back : (u ∷ us ≡ ts) × (ts ≢ []) × AllValid 0 ts → checked path (u ∷ us) ≡ ok ts
      back (same, there, valid) =
          let all = subst (λ x. AllValid 0 x) (sym same) valid in
          rw ((check_targets_iff path 0 (u ∷ us)).1 all) (ap ok same)

  -- A target list is loaded exactly when the file can be read and decodes to it, it is not empty,
  -- and every target names a known prober that finds its address and parameters valid.
  pub load_targets_iff :
      (path : Str) (file : Except Str) (ts : List Target)
      → (load_targets rt unmarshal generated ps path file ≡ ok ts)
        ↔ ((text : Str) × (file ≡ ok text) × (unmarshal text ≡ ok ts) × (ts ≢ []) × AllValid 0 ts)
  unfolding load_targets checked
  load_targets_iff path file ts = (forth, back)
    where
      forth :
          load_targets rt unmarshal generated ps path file ≡ ok ts
          → (text : Str) × (file ≡ ok text) × (unmarshal text ≡ ok ts) × (ts ≢ []) × AllValid 0 ts
      forth h =
          let (text, e, h₁) =
            >>=-eq-ok file
              (λ text.
                wrap (codes "parsing " ++ path ++ codes ": ") (unmarshal text) >>= checked path)
              h in
          let (us, e₁, h₂) =
            >>=-eq-ok (wrap (codes "parsing " ++ path ++ codes ": ") (unmarshal text))
              (checked path) h₁ in
          let (same, there, valid) = (checked_iff path us ts).0 h₂ in
          (
            text,
            e,
            rw same at
                ((wrap-ok (codes "parsing " ++ path ++ codes ": ") (unmarshal text) us).0 e₁),
            there,
            valid,
          )

      back :
          ((text : Str) × (file ≡ ok text) × (unmarshal text ≡ ok ts) × (ts ≢ []) × AllValid 0 ts)
          → load_targets rt unmarshal generated ps path file ≡ ok ts
      back (text, e, e₁, there, valid) =
          rw (e, e₁) ((checked_iff path ts ts).1 (refl, there, valid))
