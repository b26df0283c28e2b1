-- ===== src/Command/Laws.antt =====
-- What the exit code of `main` of cmd/nodecheck/main.go tells.
use mathlib.Core.Path.{subst}
use mathlib.Core.List.{Mem, Perm, not-mem-nil, forall_mem-cons}
use mathlib.Core.List.Perm
use tunnel_ops.Base.{
  ℕ, Str, true, false, List, [], ◌∷◌, Option, none, some, ◌≡◌, refl, ap, ◌⊎◌, inl, inr, ◌↔◌, arith,
  Except, ok, err, Bool-cases, zero, suc, some-eq, sym, ◌∙◌,
}
use tunnel_ops.Target.{Floating, Target, Result}
use tunnel_ops.Prober.{Runtime}
use tunnel_ops.Push.Delivery.{Request}
use tunnel_ops.Command.{Flags, World, Ended, any_down, name_lt, main, push_stage}
use tunnel_ops.Command.Course.{
  Course, shows_version, not_loaded, not_written, not_pushed, concluded, main-Course,
}
use tunnel_ops.Command.Stages.{
  loading, results, reported, Prints, Stored, Unprinted, write_results-Unprinted,
  write_results-Prints, push_stage-Stored,
}

-- Every result is healthy.
abbrev pub Healthy : {Float64 : Type 0} → List (Result Float64) → Type 0
Healthy rs = (r : _) → Mem r rs → r.ok ≡ true

pub any_down_iff :
    {Float64 : Type 0} (rs : List (Result Float64)) → (any_down rs ≡ false) ↔ Healthy rs
unfolding any_down
any_down_iff [] = ((λ h r m. absurd (not-mem-nil m)), λ h. refl)
any_down_iff (r ∷ rs) =
    let split =
      forall_mem-cons {p = λ (x : Result _). x.ok ≡ true} (λ x. hlevel) {a = r} {l = rs} in
    elim (Bool-cases r.ok) [
      | inl up ↦
          simp up
            ((λ h. split.1 (up, (any_down_iff rs).0 h)), λ h. (any_down_iff rs).1 (split.0 h).1)
      | inr down ↦ simp down ((λ h. cc), λ h. absurd (ground (arith, (split.0 h).0)))
    ]

-- What package sort documents: the elements are those that were there.
abbrev pub Permutes : (rt : Runtime) → World rt → Type 0
Permutes rt world =
    (rs : List (Result (Floating.Float64 (Runtime.floating rt))))
    → Perm (World.sort_slice world name_lt rs) rs

module _ (rt : Runtime) (world : World rt) (flags : Flags) where
  open rt use {floating}
  open floating use {Float64}

  -- `main` ends with some exit code.
  abbrev pub EndsWith : ℕ → Type 0
  EndsWith code = (e : Ended) × (main rt world flags ≡ some e) × (e.code ≡ code)

  -- Something holds of the targets, which could be loaded.
  abbrev pub Loads : (List Target → Type 0) → Type 0
  Loads P =
      (flags.show_version ≡ false) × ((ts : List Target) × (loading rt world flags ≡ ok ts) × P ts)

  abbrev pub Printed : List Target → Type 0
  Printed ts = (text : Str) × Prints rt world flags (reported rt world flags ts) text

  abbrev pub Arrives : List Target → Type 0
  Arrives ts = Stored rt world flags (reported rt world flags ts)

  -- What each exit code means.
  abbrev pub Means : ℕ → Type 0
  Means zero =
      (flags.show_version ≡ true)
      ⊎ Loads (λ ts. Printed ts × Arrives ts × Healthy (results rt world flags ts))
  Means (suc zero) =
      ((flags.show_version ≡ false) × ((e : Str) × (loading rt world flags ≡ err e)))
      ⊎ Loads (λ ts. Unprinted rt world flags (reported rt world flags ts) 1)
      ⊎ Loads (λ ts. Printed ts × Arrives ts × (Healthy (results rt world flags ts) → ⊥))
  Means (suc (suc zero)) = Loads (λ ts. Unprinted rt world flags (reported rt world flags ts) 2)
  Means (suc (suc (suc zero))) = Loads (λ ts. Printed ts × (Arrives ts → ⊥))
  Means (suc (suc (suc (suc code)))) = ⊥

  any_down-Healthy :
      Permutes rt world
      → (ts : List Target)
      → (any_down (reported rt world flags ts) ≡ false) ↔ Healthy (results rt world flags ts)
  any_down-Healthy permutes ts =
      let p = permutes (results rt world flags ts) in
      let all = any_down_iff (reported rt world flags ts) in
      ((λ h r m. all.0 h r ((Perm.mem_iff p).1 m)), λ h. all.1 (λ r m. h r ((Perm.mem_iff p).0 m)))

  Arrives-push_stage :
      (ts : List Target) (went : List Request × Option Str)
      → push_stage rt world flags (reported rt world flags ts) ≡ some went
      → (went.1 ≡ none) ↔ Arrives ts
  Arrives-push_stage ts went h =
      let (went', pushed, stored) = push_stage-Stored rt world flags (reported rt world flags ts) in
      let same : went' ≡ went = some-eq (sym pushed ∙ h) in
      subst (λ w. (w.1 ≡ none) ↔ Arrives ts) same stored

  Course-Means : Permutes rt world → {e : Ended} → Course rt world flags e → Means e.code
  Course-Means permutes (shows_version shows) = inl shows
  Course-Means permutes (not_loaded e runs k) = inl (runs, (e, k))
  Course-Means permutes (not_written ts code e runs loaded k) =
      let why = write_results-Unprinted rt world flags _ code e k in unprinted code why
    where
      unprinted :
          (code : ℕ) → Unprinted rt world flags (reported rt world flags ts) code → Means code
      unprinted code (inl u) = rw u.0 (inr (inl (runs, (ts, loaded, inl (refl, u.1, u.2)))))
      unprinted code (inr u) = rw u.0 (runs, (ts, loaded, inr (refl, u.1, u.2)))
  Course-Means permutes (not_pushed ts stdout e requests runs loaded k l) = (
    runs,
    (
      ts,
      loaded,
      (
        (stdout, (write_results-Prints rt world flags _ stdout).0 k),
        λ a. absurd (ground (arith, (Arrives-push_stage ts _ l).1 a)),
      ),
    ),
  )
  Course-Means permutes (concluded ts stdout requests runs loaded k l) =
      let printed : Printed ts = (stdout, (write_results-Prints rt world flags _ stdout).0 k) in
      let arrives = (Arrives-push_stage ts _ l).0 refl in
      let healthy = any_down-Healthy permutes ts in
      elim (Bool-cases (any_down (reported rt world flags ts))) [
        | inl down ↦
            rw down
              (inr (inr (runs, (ts, loaded, (printed, arrives, λ h. ground (arith, healthy.1 h))))))
        | inr up ↦ rw up (inr (runs, (ts, loaded, (printed, arrives, healthy.0 up))))
      ]

  -- The same as decisions, one after the other.
  abbrev Behind : List Target → ℕ → Type 0
  Behind ts code =
      Unprinted rt world flags (reported rt world flags ts) code
      ⊎ (Printed ts
          × (((Arrives ts → ⊥) × (code ≡ 3))
              ⊎ (Arrives ts
                  × ((Healthy (results rt world flags ts) × (code ≡ 0))
                      ⊎ ((Healthy (results rt world flags ts) → ⊥) × (code ≡ 1))))))

  abbrev Decided : Except (List Target) → ℕ → Type 0
  Decided (err e) code = code ≡ 1
  Decided (ok ts) code = Behind ts code

  Means-Decided :
      (code : ℕ)
      → Means code
      → ((flags.show_version ≡ true) × (code ≡ 0))
        ⊎ ((flags.show_version ≡ false) × Decided (loading rt world flags) code)
  Means-Decided zero (inl shows) = inl (shows, refl)
  Means-Decided zero (inr (runs, (ts, loaded, (printed, arrives, healthy)))) =
      inr (runs, rw loaded (inr (printed, inr (arrives, inl (healthy, refl)))))
  Means-Decided (suc zero) (inl (runs, (e, k))) = inr (runs, rw k refl)
  Means-Decided (suc zero) (inr (inl (runs, (ts, loaded, u)))) = inr (runs, rw loaded (inl u))
  Means-Decided (suc zero) (inr (inr (runs, (ts, loaded, (printed, arrives, ill))))) =
      inr (runs, rw loaded (inr (printed, inr (arrives, inr (ill, refl)))))
  Means-Decided (suc (suc zero)) (runs, (ts, loaded, u)) = inr (runs, rw loaded (inl u))
  Means-Decided (suc (suc (suc zero))) (runs, (ts, loaded, (printed, lost))) =
      inr (runs, rw loaded (inr (printed, inl (lost, refl))))
  Means-Decided (suc (suc (suc (suc code)))) h = absurd h

  Prints-Unprinted :
      (ts : List Target) (code : ℕ)
      → Printed ts
      → Unprinted rt world flags (reported rt world flags ts) code
      → ⊥
  Prints-Unprinted ts code (text, printed) u = ground arith

  Decided-unique : (m : Except (List Target)) (c c' : ℕ) → Decided m c → Decided m c' → c ≡ c'
  Decided-unique (err e) c c' h k = omega (arith, h, k)
  Decided-unique (ok ts) c c' (inl u) (inl u') = ground arith
  Decided-unique (ok ts) c c' (inl u) (inr k) = absurd (Prints-Unprinted ts c k.0 u)
  Decided-unique (ok ts) c c' (inr h) (inl u) = absurd (Prints-Unprinted ts c' h.0 u)
  Decided-unique (ok ts) c c' (inr h) (inr k) = ground arith

  Means-unique : (c c' : ℕ) → Means c → Means c' → c ≡ c'
  Means-unique c c' h k = decided (Means-Decided c h) (Means-Decided c' k)
    where
      decided :
          ((flags.show_version ≡ true) × (c ≡ 0))
            ⊎ ((flags.show_version ≡ false) × Decided (loading rt world flags) c)
          → ((flags.show_version ≡ true) × (c' ≡ 0))
            ⊎ ((flags.show_version ≡ false) × Decided (loading rt world flags) c')
          → c ≡ c'
      decided (inl x) (inl y) = omega (arith, x.1, y.1)
      decided (inl x) (inr y) = absurd (ground (arith, x.0, y.0))
      decided (inr x) (inl y) = absurd (ground (arith, x.0, y.0))
      decided (inr x) (inr y) = Decided-unique (loading rt world flags) c c' x.1 y.1

  -- What each exit code of `main` means, where `sort.Slice` keeps the elements. 0: the version was
  -- asked for, or the targets were loaded, the results were printed, they were stored if the flags
  -- ask for that, and every one of them is healthy. 1: no targets could be loaded, or the JSON could
  -- not be encoded, or all this worked and some result is not healthy. 2: the format is neither of
  -- the two. 3: the results were printed, and could not be stored. There is no other exit code.
  pub main-code_iff : Permutes rt world → (code : ℕ) → EndsWith code ↔ Means code
  main-code_iff permutes code = (
    (λ (e, ends, k).
        let (e', ends', course) = main-Course rt world flags in
        let same : e'.code ≡ code = ap (λ x. x.code) (some-eq (sym ends' ∙ ends)) ∙ k in
        subst Means same (Course-Means permutes course)),
    λ h.
        let (e, ends, course) = main-Course rt world flags in
        (e, ends, Means-unique e.code code (Course-Means permutes course) h),
  )
