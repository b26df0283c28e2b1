-- ===== src/RunAll.antt =====
-- cmd/nodecheck/main.go: `runAll`, as a step relation on its goroutines. A step is an operation of
-- one of them; which one goes next is left open. The results are of any type, and `Makes t r` says
-- that r may be what probing t gives, with its timestamp.
pub mod Probes
pub mod Invariant
pub mod Results
pub mod Progress
mod Tests
use tunnel_ops.Base.{
  ℕ, ◌+◌, ◌-◌, ◌<◌, Bool, true, false, List, [], ◌∷◌, ◌++◌, length, if◌then◌else◌, ltb,
}
use tunnel_ops.Target.{Target}

-- How far the goroutine of a target is: at the semaphore, at the probe, at the send, at the two
-- deferred calls, which release the permit and count down, and past them. Its result is kept.
pub data Stage (R : Type 0) : Type 0 where
  waiting probing : Stage R
  sending releasing counting finished : R → Stage R

pub record Worker (R : Type 0) : Type 0 where
  pub target : Target
  pub stage : Stage R

-- The targets that are not launched yet, the goroutines, the elements of `sem`, those of `out`, the
-- counter of `wg`, and whether `out` is closed.
pub record Run (R : Type 0) : Type 0 where
  pub pending : List Target
  pub workers : List (Worker R)
  pub sem : ℕ
  pub out : List R
  pub wg : ℕ
  pub closed : Bool

-- `if conc < 1 { conc = 1 }`
abbrev pub permits : ℕ → ℕ
permits conc = if ltb conc 1 then 1 else conc

abbrev pub worker : {R : Type 0} → Target → Stage R → Worker R
worker t s = record { target = t; stage = s }

module _ (R : Type 0) (Makes : Target → R → Type 0) (targets : List Target) (conc : ℕ) where
  abbrev pub state : List Target → List (Worker R) → ℕ → List R → ℕ → Bool → Run R
  state ts ws n rs c b = record {
    pending = ts;
    workers = ws;
    sem = n;
    out = rs;
    wg = c;
    closed = b;
  }

  abbrev pub start : Run R
  start = state targets [] 0 [] 0 false

  pub data Step : Run R → Run R → Type 0 where
    launch :
        (t : Target) (ts : List Target) (ws : List (Worker R)) (n : ℕ) (rs : List R) (c : ℕ)
        → Step
            (state (t ∷ ts) ws n rs c false)
            (state ts (ws ++ worker t waiting ∷ []) n rs (c + 1) false)
    -- A send on `sem` waits until there is room.
    acquire :
        (t : Target) (ts : List Target) (before after : List (Worker R)) (n : ℕ) (rs : List R)
        (c : ℕ) (b : Bool)
        → n < permits conc
        → Step
            (state ts (before ++ worker t waiting ∷ after) n rs c b)
            (state ts (before ++ worker t probing ∷ after) (n + 1) rs c b)
    probe :
        (t : Target) (r : R) (ts : List Target) (before after : List (Worker R)) (n : ℕ)
        (rs : List R) (c : ℕ) (b : Bool)
        → Makes t r
        → Step
            (state ts (before ++ worker t probing ∷ after) n rs c b)
            (state ts (before ++ worker t (sending r) ∷ after) n rs c b)
    -- A send on `out` waits until there is room.
    send :
        (t : Target) (r : R) (ts : List Target) (before after : List (Worker R)) (n : ℕ)
        (rs : List R) (c : ℕ) (b : Bool)
        → length rs < length targets
        → Step
            (state ts (before ++ worker t (sending r) ∷ after) n rs c b)
            (state ts (before ++ worker t (releasing r) ∷ after) n (rs ++ r ∷ []) c b)
    -- A receive from `sem` waits until there is an element.
    release :
        (t : Target) (r : R) (ts : List Target) (before after : List (Worker R)) (n : ℕ)
        (rs : List R) (c : ℕ) (b : Bool)
        → 0 < n
        → Step
            (state ts (before ++ worker t (releasing r) ∷ after) n rs c b)
            (state ts (before ++ worker t (counting r) ∷ after) (n - 1) rs c b)
    count_down :
        (t : Target) (r : R) (ts : List Target) (before after : List (Worker R)) (n : ℕ)
        (rs : List R) (c : ℕ) (b : Bool)
        → Step
            (state ts (before ++ worker t (counting r) ∷ after) n rs c b)
            (state ts (before ++ worker t (finished r) ∷ after) n rs (c - 1) b)
    -- `wg.Wait()` behind the loop, and `close(out)`.
    close :
        (ws : List (Worker R)) (n : ℕ) (rs : List R)
        → Step (state [] ws n rs 0 false) (state [] ws n rs 0 true)

  pub data Reachable : Run R → Type 0 where
    begins : Reachable start
    goes_on : {s s' : Run R} → Reachable s → Step s s' → Reachable s'
