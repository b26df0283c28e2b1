-- ===== src/RunAll/Invariant.antt =====
-- What holds in every state of `runAll` of cmd/nodecheck/main.go, however its goroutines interleave.
use tunnel_ops.Base.{
  ℕ, ◌+◌, ◌<◌, ◌≤◌, Bool, true, false, List, [], ◌∷◌, ◌++◌, length, length-append, count_where,
  count_where-append, if◌then◌else◌, ◌≡◌, refl, arith,
}
use tunnel_ops.Target.{Target}
use tunnel_ops.RunAll.{
  waiting, probing, sending, releasing, counting, finished, Worker, Run, permits, worker, start,
  Step, launch, acquire, probe, send, release, count_down, close, Reachable, begins, goes_on,
}

module _ {R : Type 0} where
  -- A goroutine that has a permit.
  abbrev pub holds : Worker R → Bool
  holds w = elim w.stage [ probing ↦ true | sending r ↦ true | releasing r ↦ true | _ ↦ false ]

  -- A goroutine that has not counted down.
  abbrev pub running : Worker R → Bool
  running w = elim w.stage [ finished r ↦ false | _ ↦ true ]

  -- A goroutine that has not sent its result.
  abbrev pub unsent : Worker R → Bool
  unsent w = elim w.stage [ waiting ↦ true | probing ↦ true | sending r ↦ true | _ ↦ false ]

  -- How a count changes where one goroutine goes on.
  pub moved :
      (p : Worker R → Bool) (before after : List (Worker R)) (w w' : Worker R)
      → count_where p (before ++ w' ∷ after) + (if p w then 1 else 0)
        ≡ count_where p (before ++ w ∷ after) + (if p w' then 1 else 0)
  moved p before after w w' =
      omega
        (arith, count_where-append p before (w ∷ after), count_where-append p before (w' ∷ after))

  pub launched :
      (p : Worker R → Bool) (ws : List (Worker R)) (w : Worker R)
      → count_where p (ws ++ w ∷ []) ≡ count_where p ws + (if p w then 1 else 0)
  launched p ws w = omega (arith, count_where-append p ws (w ∷ []))

module _ (R : Type 0) (Makes : Target → R → Type 0) (targets : List Target) (conc : ℕ) where
  pub record Counts (s : Run R) : Type 0 where
    pub held : s.sem ≡ count_where holds s.workers
    pub within : s.sem ≤ permits conc
    pub counted : s.wg ≡ count_where running s.workers
    pub room : length s.out + count_where unsent s.workers + length s.pending ≡ length targets

  begins-Counts : Counts (start R Makes targets conc)
  begins-Counts = record { held = refl; within = omega arith; counted = refl; room = omega arith }

  Step-Counts : {s s' : Run R} → Counts s → Step R Makes targets conc s s' → Counts s'
  Step-Counts i (launch t ts ws n rs c) = record {
    held = omega (arith, i.held, launched holds ws (worker t waiting));
    within = i.within;
    counted = omega (arith, i.counted, launched running ws (worker t waiting));
    room = omega (arith, i.room, launched unsent ws (worker t waiting));
  }
  Step-Counts i (acquire t ts before after n rs c b p) = record {
    held = omega (arith, i.held, moved holds before after (worker t waiting) (worker t probing));
    within = omega (arith, p);
    counted =
        omega (arith, i.counted, moved running before after (worker t waiting) (worker t probing));
    room = omega (arith, i.room, moved unsent before after (worker t waiting) (worker t probing));
  }
  Step-Counts i (probe t r ts before after n rs c b m) = record {
    held =
        omega (arith, i.held, moved holds before after (worker t probing) (worker t (sending r)));
    within = i.within;
    counted =
        omega
          (arith, i.counted, moved running before after (worker t probing) (worker t (sending r)));
    room =
        omega (arith, i.room, moved unsent before after (worker t probing) (worker t (sending r)));
  }
  Step-Counts i (send t r ts before after n rs c b p) = record {
    held =
        omega
          (arith, i.held, moved holds before after (worker t (sending r)) (worker t (releasing r)));
    within = i.within;
    counted = omega (
      arith,
      i.counted,
      moved running before after (worker t (sending r)) (worker t (releasing r)),
    );
    room = omega (
      arith,
      i.room,
      length-append rs (r ∷ []),
      moved unsent before after (worker t (sending r)) (worker t (releasing r)),
    );
  }
  Step-Counts i (release t r ts before after n rs c b p) = record {
    held = omega (
      arith,
      i.held,
      p,
      moved holds before after (worker t (releasing r)) (worker t (counting r)),
    );
    within = omega (arith, i.within);
    counted = omega (
      arith,
      i.counted,
      moved running before after (worker t (releasing r)) (worker t (counting r)),
    );
    room =
        omega (
          arith,
          i.room,
          moved unsent before after (worker t (releasing r)) (worker t (counting r)),
        );
  }
  Step-Counts i (count_down t r ts before after n rs c b) = record {
    held =
        omega
          (arith, i.held, moved holds before after (worker t (counting r)) (worker t (finished r)));
    within = i.within;
    counted = omega (
      arith,
      i.counted,
      moved running before after (worker t (counting r)) (worker t (finished r)),
    );
    room =
        omega (
          arith,
          i.room,
          moved unsent before after (worker t (counting r)) (worker t (finished r)),
        );
  }
  Step-Counts i (close ws n rs) = record {
    held = i.held;
    within = i.within;
    counted = i.counted;
    room = i.room;
  }

  pub Reachable-Counts : {s : Run R} → Reachable R Makes targets conc s → Counts s
  Reachable-Counts begins = begins-Counts
  Reachable-Counts (goes_on reached step) = Step-Counts (Reachable-Counts reached) step

  -- Never more goroutines hold a permit, and so never more probes are under way, than the
  -- concurrency allows, which is at least one.
  pub Reachable-bounded :
      {s : Run R} → Reachable R Makes targets conc s → count_where holds s.workers ≤ permits conc
  Reachable-bounded reached = let i = Reachable-Counts reached in omega (arith, i.held, i.within)

  -- A goroutine that is about to send its result always finds room in the channel, whose capacity is
  -- the number of the targets.
  pub Reachable-room :
      {s : Run R} (before after : List (Worker R)) (t : Target) (r : R)
      → Reachable R Makes targets conc s
      → s.workers ≡ before ++ worker t (sending r) ∷ after
      → length s.out < length targets
  Reachable-room before after t r reached e =
      let i = Reachable-Counts reached in
      let room = rw e at i.room in
      omega (arith, room, moved unsent before after (worker t (sending r)) (worker t (releasing r)))
