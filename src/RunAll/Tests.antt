-- ===== src/RunAll/Tests.antt =====
-- The theorems on `runAll` at a run of one target with one permit.
use mathlib.Core.List.{Perm}
use tunnel_ops.Base.{ℕ, ◌≤◌, true, false, List, [], ◌∷◌, count_where, ◌≡◌, refl, arith}
use tunnel_ops.Samples.{target_of}
use tunnel_ops.Target.{Target}
use tunnel_ops.RunAll.{
  Run, worker, probing, sending, finished, permits, state, Step, launch, acquire, probe, send,
  release, count_down, close, Reachable, begins, goes_on,
}
use tunnel_ops.RunAll.Invariant.{holds, Reachable-bounded}
use tunnel_ops.RunAll.Results.{Each, Reachable-closed}
use tunnel_ops.RunAll.Progress.{Reachable-progress}

abbrev edge : Target
edge = target_of "edge"

-- Every probe gives 7.
abbrev Sevens : Target → ℕ → Type 0
Sevens t r = r ≡ 7

abbrev Reached : Run ℕ → Type 0
Reached s = Reachable ℕ Sevens (edge ∷ []) 0 s

abbrev held : Run ℕ
held = state ℕ Sevens (edge ∷ []) 0 [] (worker edge probing ∷ []) 1 [] 1 false

held-Reached : Reached held
held-Reached =
    goes_on (goes_on begins (launch edge [] [] 0 [] 0))
      (acquire edge [] [] [] 0 [] 1 false (omega arith))

abbrev sends : Run ℕ
sends = state ℕ Sevens (edge ∷ []) 0 [] (worker edge (sending 7) ∷ []) 1 [] 1 false

sends-Reached : Reached sends
sends-Reached = goes_on held-Reached (probe edge 7 [] [] [] 1 [] 1 false refl)

abbrev done : Run ℕ
done = state ℕ Sevens (edge ∷ []) 0 [] (worker edge (finished 7) ∷ []) 0 (7 ∷ []) 0 true

done-Reached : Reached done
done-Reached =
    goes_on
      (goes_on
        (goes_on (goes_on sends-Reached (send edge 7 [] [] [] 1 [] 1 false (omega arith)))
          (release edge 7 [] [] [] 1 (7 ∷ []) 1 false (omega arith)))
        (count_down edge 7 [] [] [] 0 (7 ∷ []) 1 false))
      (close (worker edge (finished 7) ∷ []) 0 (7 ∷ []))

Reachable-bounded_example : count_where holds held.workers ≤ permits 0
Reachable-bounded_example = Reachable-bounded ℕ Sevens (edge ∷ []) 0 held-Reached

Reachable-closed_example : (rs : List ℕ) × Each ℕ Sevens (edge ∷ []) rs × Perm (7 ∷ []) rs
Reachable-closed_example = Reachable-closed ℕ Sevens (edge ∷ []) 0 done done-Reached refl

Reachable-progress_example : (s' : Run ℕ) × Step ℕ Sevens (edge ∷ []) 0 held s'
Reachable-progress_example =
    Reachable-progress ℕ Sevens (edge ∷ []) 0 (λ t. (7, refl)) held held-Reached refl
