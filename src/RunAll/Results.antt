-- ===== src/RunAll/Results.antt =====
-- What `runAll` of cmd/nodecheck/main.go returns: one result of each target, in some order.
use mathlib.Core.List.{Perm, perm_middle, perm_append_singleton}
use mathlib.Core.List.Perm
use mathlib.Core.Path.{subst}
use tunnel_ops.Base.{
  ℕ, ◌+◌, ◌-◌, Bool, true, List, [], ◌∷◌, ◌++◌, All, All-append, append_assoc, append-nil,
  count_where, ◌≡◌, refl, sym, ap, ◌∙◌, arith,
}
use tunnel_ops.Target.{Target}
use tunnel_ops.RunAll.{
  Stage, waiting, probing, sending, releasing, counting, finished, Worker, Run, worker, state, Step,
  launch, acquire, probe, send, release, count_down, close, Reachable, begins, goes_on,
}
use tunnel_ops.RunAll.Invariant.{running, Reachable-Counts}

module _ (R : Type 0) (Makes : Target → R → Type 0) where
  -- A result that a goroutine has is one of its target.
  abbrev MadeBy : Target → Stage R → Type 0
  MadeBy t waiting = Unit
  MadeBy t probing = Unit
  MadeBy t (sending r) = Makes t r
  MadeBy t (releasing r) = Makes t r
  MadeBy t (counting r) = Makes t r
  MadeBy t (finished r) = Makes t r

  abbrev Made : List (Worker R) → Type 0
  Made ws = All (λ w. MadeBy w.target w.stage) ws

  -- One result for each target, in the targets' order.
  abbrev pub Each : List Target → List R → Type 0
  Each [] [] = Unit
  Each [] (r ∷ rs) = ⊥
  Each (t ∷ ts) [] = ⊥
  Each (t ∷ ts) (r ∷ rs) = Makes t r × Each ts rs

  abbrev targets_of : List (Worker R) → List Target
  targets_of [] = []
  targets_of (w ∷ ws) = w.target ∷ targets_of ws

  targets_of-append :
      (us vs : List (Worker R)) → targets_of (us ++ vs) ≡ targets_of us ++ targets_of vs
  targets_of-append [] vs = refl
  targets_of-append (u ∷ us) vs = ap (◌∷◌ u.target) (targets_of-append us vs)

  targets_of-moved :
      (before after : List (Worker R)) (t : Target) (st st' : Stage R)
      → targets_of (before ++ worker t st' ∷ after) ≡ targets_of (before ++ worker t st ∷ after)
  targets_of-moved [] after t st st' = refl
  targets_of-moved (w ∷ before) after t st st' =
      ap (◌∷◌ w.target) (targets_of-moved before after t st st')

  -- The results that the goroutines have sent.
  abbrev emitted : Stage R → List R
  emitted waiting = []
  emitted probing = []
  emitted (sending r) = []
  emitted (releasing r) = r ∷ []
  emitted (counting r) = r ∷ []
  emitted (finished r) = r ∷ []

  abbrev sent_of : List (Worker R) → List R
  sent_of [] = []
  sent_of (w ∷ ws) = emitted w.stage ++ sent_of ws

  sent_of-append : (us vs : List (Worker R)) → sent_of (us ++ vs) ≡ sent_of us ++ sent_of vs
  sent_of-append [] vs = refl
  sent_of-append (u ∷ us) vs =
      ap (◌++◌ (emitted u.stage)) (sent_of-append us vs)
      ∙ sym (append_assoc (emitted u.stage) (sent_of us) (sent_of vs))

  sent_of-moved :
      (before after : List (Worker R)) (t : Target) (st st' : Stage R)
      → emitted st' ≡ emitted st
      → sent_of (before ++ worker t st' ∷ after) ≡ sent_of (before ++ worker t st ∷ after)
  sent_of-moved [] after t st st' e = ap (λ x. x ++ sent_of after) e
  sent_of-moved (w ∷ before) after t st st' e =
      ap (◌++◌ (emitted w.stage)) (sent_of-moved before after t st st' e)

  -- A send puts the result of one goroutine behind those in the channel.
  sent_of-send :
      (before after : List (Worker R)) (t : Target) (r : R) (rs : List R)
      → Perm rs (sent_of (before ++ worker t (sending r) ∷ after))
      → Perm (rs ++ r ∷ []) (sent_of (before ++ worker t (releasing r) ∷ after))
  sent_of-send before after t r rs p =
      let held : Perm rs (sent_of before ++ sent_of after) =
        rw (sent_of-append before (worker t (sending r) ∷ after)) at p in
      rw (sent_of-append before (worker t (releasing r) ∷ after)) (
        Perm.trans (perm_append_singleton r rs) (
          Perm.trans (Perm.cons r held) (Perm.symm (perm_middle (sent_of before) (sent_of after)))))

  Made-moved :
      (before after : List (Worker R)) (t : Target) (st st' : Stage R)
      → (MadeBy t st → MadeBy t st')
      → Made (before ++ worker t st ∷ after)
      → Made (before ++ worker t st' ∷ after)
  Made-moved [] after t st st' f m = (f m.0, m.1)
  Made-moved (w ∷ before) after t st st' f m = (m.0, Made-moved before after t st st' f m.1)

  -- Goroutines that have all counted down have sent a result for each target.
  all_finished :
      (ws : List (Worker R))
      → count_where running ws ≡ 0
      → Made ws
      → Each (targets_of ws) (sent_of ws)
  all_finished [] h m = tt
  all_finished (w ∷ ws) h m = last w.stage refl (all_finished ws (omega (arith, h)) m.1)
    where
      last :
          (st : Stage R)
          → w.stage ≡ st
          → Each (targets_of ws) (sent_of ws)
          → Each (targets_of (w ∷ ws)) (sent_of (w ∷ ws))
      last (finished r) e each = rw e ((rw e at m.0), each)
      last waiting e each = absurd (ground (arith, e))
      last probing e each = absurd (ground (arith, e))
      last (sending r) e each = absurd (ground (arith, e))
      last (releasing r) e each = absurd (ground (arith, e))
      last (counting r) e each = absurd (ground (arith, e))

  module _ (targets : List Target) (conc : ℕ) where
    record Traces (s : Run R) : Type 0 where
      origin : targets_of s.workers ++ s.pending ≡ targets
      results : Perm s.out (sent_of s.workers)
      made : Made s.workers
      closing : s.closed ≡ true → (s.pending ≡ []) × (s.wg ≡ 0)

    -- A goroutine that goes on and sends nothing.
    goes_on-Traces :
        (ts : List Target) (before after : List (Worker R)) (n n' : ℕ) (rs : List R) (c c' : ℕ)
        (b : Bool) (t : Target) (st st' : Stage R)
        → Traces (state R Makes targets conc ts (before ++ worker t st ∷ after) n rs c b)
        → (MadeBy t st → MadeBy t st')
        → emitted st' ≡ emitted st
        → (c ≡ 0 → c' ≡ 0)
        → Traces (state R Makes targets conc ts (before ++ worker t st' ∷ after) n' rs c' b)
    goes_on-Traces ts before after n n' rs c c' b t st st' i f g h = record {
      origin = rw (targets_of-moved before after t st st') i.origin;
      results = rw (sent_of-moved before after t st st' g) i.results;
      made = Made-moved before after t st st' f i.made;
      closing = λ k. let (none, zero_left) = i.closing k in (none, h zero_left);
    }

    Step-Traces : {s s' : Run R} → Traces s → Step R Makes targets conc s s' → Traces s'
    Step-Traces i (launch t ts ws n rs c) = record {
      origin =
          rw
            (targets_of-append ws (worker t waiting ∷ []), append_assoc (targets_of ws) (t ∷ []) ts)
            i.origin;
      results = rw (sent_of-append ws (worker t waiting ∷ []), append-nil (sent_of ws)) i.results;
      made = All-append _ ws (worker t waiting ∷ []) i.made (tt, tt);
      closing = λ k. cc;
    }
    Step-Traces i (acquire t ts before after n rs c b p) =
        goes_on-Traces ts before after n (n + 1) rs c c b t waiting probing i (λ m. tt) refl
          (λ h. h)
    Step-Traces i (probe t r ts before after n rs c b m) =
        goes_on-Traces ts before after n n rs c c b t probing (sending r) i (λ k. m) refl (λ h. h)
    Step-Traces i (send t r ts before after n rs c b p) = record {
      origin = rw (targets_of-moved before after t (sending r) (releasing r)) i.origin;
      results = sent_of-send before after t r rs i.results;
      made = Made-moved before after t (sending r) (releasing r) (λ m. m) i.made;
      closing = i.closing;
    }
    Step-Traces i (release t r ts before after n rs c b p) =
        goes_on-Traces ts before after n (n - 1) rs c c b t (releasing r) (counting r) i (λ m. m)
          refl (λ h. h)
    Step-Traces i (count_down t r ts before after n rs c b) =
        goes_on-Traces ts before after n n rs c (c - 1) b t (counting r) (finished r) i (λ m. m)
          refl (λ h. omega (arith, h))
    Step-Traces i (close ws n rs) = record {
      origin = i.origin;
      results = i.results;
      made = i.made;
      closing = λ k. (refl, refl);
    }

    Reachable-Traces : {s : Run R} → Reachable R Makes targets conc s → Traces s
    Reachable-Traces begins = record {
      origin = refl;
      results = Perm.nil;
      made = tt;
      closing = λ k. cc;
    }
    Reachable-Traces (goes_on reached step) = Step-Traces (Reachable-Traces reached) step

    -- When the channel has been closed, what it holds is a permutation of a list that has, for each
    -- target in turn, one result that the target's probe made.
    pub Reachable-closed :
        (s : Run R)
        → Reachable R Makes targets conc s
        → s.closed ≡ true
        → (rs : List R) × Each targets rs × Perm s.out rs
    Reachable-closed s reached shut =
        let i = Reachable-Traces reached in
        let j = Reachable-Counts R Makes targets conc reached in
        let (none, zero_left) = i.closing shut in
        let idle : count_where running s.workers ≡ 0 = omega (arith, j.counted, zero_left) in
        let whole : targets_of s.workers ≡ targets =
          sym (append-nil (targets_of s.workers)) ∙ rw none at i.origin in
        (
          sent_of s.workers,
          subst (λ ts. Each ts (sent_of s.workers)) whole (all_finished s.workers idle i.made),
          i.results,
        )
