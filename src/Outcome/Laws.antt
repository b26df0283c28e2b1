-- ===== src/Outcome/Laws.antt =====
-- What a `Result` says of its outcome, by `toResult` of cmd/nodecheck/prober.go.
use tunnel_ops.Base.{
  codes, true, false, some, List, [], ◌∷◌, ◌++◌, All, ◌≡◌, refl, ◌≢◌, ◌↔◌, ap, sym, ◌∙◌, arith,
  some-eq,
}
use tunnel_ops.Target.{Floating, Target, Result}
use tunnel_ops.Outcome.{Phase, Outcome, to_result}
use tunnel_ops.Outcome.Expected.{all_ok, passes, blame, expected, to_result-expected}

abbrev pub Passed : Phase → Type 0
Passed ph = ph.ok ≡ true

all_ok_iff : (phs : List Phase) → (all_ok phs ≡ true) ↔ All Passed phs
all_ok_iff [] = (λ _. tt, λ _. refl)
all_ok_iff (ph ∷ phs) =
    (λ h. ground (arith, (all_ok_iff phs).0), λ h. rw h.0 ((all_ok_iff phs).1 h.1))

passes_iff : (phs : List Phase) → (passes phs ≡ true) ↔ ((phs ≢ []) × All Passed phs)
passes_iff [] = (λ h. cc, λ h. absurd (h.0 refl))
passes_iff (ph ∷ phs) =
    (λ h. (λ e. cc, (all_ok_iff (ph ∷ phs)).0 h), λ h. (all_ok_iff (ph ∷ phs)).1 h.1)

first_blamed :
    (before after : List Phase) (bad : Phase)
    → All Passed before
    → bad.ok ≡ false
    → (blame (before ++ bad ∷ after) ≡ bad.name ++ codes ": " ++ bad.err)
      × (all_ok (before ++ bad ∷ after) ≡ false)
first_blamed [] after bad h e = rw e (refl, refl)
first_blamed (ph ∷ before) after bad h e = rw h.0 (first_blamed before after bad h.1 e)

passes_of_all_ok : (phs : List Phase) → all_ok phs ≡ false → passes phs ≡ false
passes_of_all_ok [] h = refl
passes_of_all_ok (ph ∷ phs) h = h

module _ (fl : Floating) where
  open fl use {Float64}

  pub expected_of_to_result :
      (t : Target) (o : Outcome) {r : Result Float64}
      → to_result fl t o ≡ some r
      → expected fl t o ≡ r
  expected_of_to_result t o h = some-eq (sym (to_result-expected fl t o) ∙ h)

  -- A result is healthy exactly when its outcome has phases and every one of them passed.
  pub to_result-ok_iff :
      (t : Target) (o : Outcome) (r : Result Float64)
      → to_result fl t o ≡ some r
      → (r.ok ≡ true) ↔ ((o.phases ≢ []) × All Passed o.phases)
  to_result-ok_iff t o r h =
      rw (← ap (λ x. x.ok) (expected_of_to_result t o h)) (passes_iff o.phases)

  -- The first phase that failed decides the error text, its name in front, whatever came after it.
  pub to_result-first_failing :
      (t : Target) (o : Outcome) (r : Result Float64) (before after : List Phase) (bad : Phase)
      → to_result fl t o ≡ some r
      → o.phases ≡ before ++ bad ∷ after
      → All Passed before
      → bad.ok ≡ false
      → (r.ok ≡ false) × (r.error ≡ bad.name ++ codes ": " ++ bad.err)
  to_result-first_failing t o r before after bad h e passed failed =
      rw (← expected_of_to_result t o h, e)
        (
          passes_of_all_ok (before ++ bad ∷ after) (first_blamed before after bad passed failed).1,
          (first_blamed before after bad passed failed).0,
        )
