-- ===== src/RunAll/Progress.antt =====
-- That `runAll` of cmd/nodecheck/main.go does not get stuck.
use tunnel_ops.Base.{
  ℕ, zero, suc, ◌<◌, Bool, true, false, Bool-cases, List, [], ◌∷◌, ◌++◌, count_where, ◌≡◌, refl, ap,
  sym, inl, inr, arith,
}
use mathlib.Core.Path.{subst}
use native.Mathlib.Decide.{dec_lt}
use tunnel_ops.Target.{Target}
use tunnel_ops.RunAll.{
  Stage, waiting, probing, sending, releasing, counting, finished, Worker, Run, permits, worker,
  state, Step, launch, acquire, probe, send, release, count_down, close, Reachable,
}
use tunnel_ops.RunAll.Invariant.{holds, running, unsent, moved, Counts, Reachable-Counts}

-- An element that passes a test, where some do.
find :
    {A : Type 0} (p : A → Bool) (xs : List A)
    → 0 < count_where p xs
    → (before : List A) × (x : A) × (after : List A) × (xs ≡ before ++ x ∷ after) × (p x ≡ true)
find p [] h = absurd (omega arith)
find p (x ∷ xs) h = elim (Bool-cases (p x)) [
  | inl e ↦ ([], x, xs, refl, e)
  | inr e ↦
      let (before, y, after, split, passes) = find p xs (ground (arith, e)) in
      (x ∷ before, y, after, ap (◌∷◌ x) split, passes)
]

module _ (R : Type 0) (Makes : Target → R → Type 0) (targets : List Target) (conc : ℕ)
    (probes : (t : Target) → (r : R) × Makes t r) where
  Moves : Run R → Type 0
  Moves s = (s' : Run R) × Step R Makes targets conc s s'

  -- A goroutine that holds a permit goes on.
  holder-Moves :
      (ts : List Target) (before after : List (Worker R)) (n : ℕ) (rs : List R) (c : ℕ) (b : Bool)
      (t : Target) (st : Stage R)
      → Counts R Makes targets conc
          (state R Makes targets conc ts (before ++ worker t st ∷ after) n rs c b)
      → holds (worker t st) ≡ true
      → Moves (state R Makes targets conc ts (before ++ worker t st ∷ after) n rs c b)
  unfolding Moves
  holder-Moves ts before after n rs c b t waiting i h = cc
  holder-Moves ts before after n rs c b t probing i h =
      let (r, made) = probes t in (_, probe t r ts before after n rs c b made)
  holder-Moves ts before after n rs c b t (sending r) i h = (
    _,
    send t r ts before after n rs c b (
        omega (
          arith,
          i.room,
          moved unsent before after (worker t (sending r)) (worker t (releasing r)),
        )),
  )
  holder-Moves ts before after n rs c b t (releasing r) i h = (
    _,
    release t r ts before after n rs c b (
        omega (
          arith,
          i.held,
          moved holds before after (worker t (releasing r)) (worker t (counting r)),
        )),
  )
  holder-Moves ts before after n rs c b t (counting r) i h = cc
  holder-Moves ts before after n rs c b t (finished r) i h = cc

  -- Where all permits are taken, one of their holders goes on.
  full-Moves :
      (ts : List Target) (ws : List (Worker R)) (n : ℕ) (rs : List R) (c : ℕ) (b : Bool)
      → Counts R Makes targets conc (state R Makes targets conc ts ws n rs c b)
      → 0 < n
      → Moves (state R Makes targets conc ts ws n rs c b)
  full-Moves ts ws n rs c b i h =
      let (before, w, after, split, held) = find holds ws (omega (arith, i.held, h)) in
      rw split (holder-Moves ts before after n rs c b w.target w.stage (rw split at i) held)

  permits_positive : 0 < permits conc
  permits_positive = ground arith

  -- A goroutine that has not counted down: it goes on, or it waits for a permit.
  runner-Moves :
      (ts : List Target) (before after : List (Worker R)) (n : ℕ) (rs : List R) (c : ℕ) (b : Bool)
      (t : Target) (st : Stage R)
      → Counts R Makes targets conc
          (state R Makes targets conc ts (before ++ worker t st ∷ after) n rs c b)
      → running (worker t st) ≡ true
      → Moves (state R Makes targets conc ts (before ++ worker t st ∷ after) n rs c b)
  unfolding Moves
  runner-Moves ts before after n rs c b t waiting i h = elim (dec_lt n (permits conc)) [
    | yes free ↦ (_, acquire t ts before after n rs c b free)
    | no taken ↦
        full-Moves ts (before ++ worker t waiting ∷ after) n rs c b i
          (omega (arith, taken, permits_positive))
  ]
  runner-Moves ts before after n rs c b t probing i h =
      holder-Moves ts before after n rs c b t probing i refl
  runner-Moves ts before after n rs c b t (sending r) i h =
      holder-Moves ts before after n rs c b t (sending r) i refl
  runner-Moves ts before after n rs c b t (releasing r) i h =
      holder-Moves ts before after n rs c b t (releasing r) i refl
  runner-Moves ts before after n rs c b t (counting r) i h =
      (_, count_down t r ts before after n rs c b)
  runner-Moves ts before after n rs c b t (finished r) i h = cc

  open-Moves :
      (ts : List Target) (ws : List (Worker R)) (n : ℕ) (rs : List R) (c : ℕ)
      → Counts R Makes targets conc (state R Makes targets conc ts ws n rs c false)
      → Moves (state R Makes targets conc ts ws n rs c false)
  unfolding Moves
  open-Moves (t ∷ ts) ws n rs c i = (_, launch t ts ws n rs c)
  open-Moves [] ws n rs zero i = (_, close ws n rs)
  open-Moves [] ws n rs (suc c) i =
      let (before, w, after, split, runs) = find running ws (omega (arith, i.counted)) in
      rw split
        (runner-Moves [] before after n rs (suc c) false w.target w.stage (rw split at i) runs)

  -- Where every probe can return a result, some goroutine can go on in every state until the channel
  -- is closed: the semaphore, the channel and the wait never block all of them.
  pub Reachable-progress :
      (s : Run R)
      → Reachable R Makes targets conc s
      → s.closed ≡ false
      → (s' : Run R) × Step R Makes targets conc s s'
  unfolding Moves
  Reachable-progress s reached opened =
      let i = Reachable-Counts R Makes targets conc reached in
      let same : s ≡ state R Makes targets conc s.pending s.workers s.sem s.out s.wg false =
        ap (λ b. state R Makes targets conc s.pending s.workers s.sem s.out s.wg b) opened in
      subst (λ x. Moves x) (sym same)
        (open-Moves s.pending s.workers s.sem s.out s.wg
          (subst (λ x. Counts R Makes targets conc x) same i))
