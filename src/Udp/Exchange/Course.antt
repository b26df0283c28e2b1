-- ===== src/Udp/Exchange/Course.antt =====
-- What can happen while `udpExchange.run` of cmd/nodecheck/prober_udp.go waits for an answer, as a
-- relation between the environment and a verdict, and that the loop reaches just that verdict.
use tunnel_ops.Base.{
  ℕ, zero, suc, ◌+◌, ◌≤◌, ◌<◌, Str, Bool, true, false, [], Option, none, some, if◌then◌else◌, ltb,
  take, ◌≡◌, refl, inl, inr, arith, Bool-cases,
}
use tunnel_ops.Udp.Exchange.{
  UdpExchange, ReadAnswer, datagram, read_error, Attempt, Loop, Flow, goes, break, mtu, verdict_on,
  wrote, read_until, earlier, logged, resend, set_deadline, judged, receive, fails_with, ◌>>=◌,
  unanswered, read, round, attempts_from,
}

pub data Verdict : Type 0 where
  -- A datagram was taken.
  accepted : Str → Verdict
  -- An error that says something in its own right.
  definite : Str → Verdict
  -- Nobody answered.
  silent : Verdict

module _ (x : UdpExchange) (deadline : ℕ) where
  -- The round's own calls succeed: the resending, which the first round does not do, and the
  -- deadline.
  abbrev pub Waits : ℕ → Attempt → Type 0
  Waits i a = ((0 < i) → a.write_error ≡ none) × (a.deadline_error ≡ none)

  -- A round in which the wait ran out, and the caller still wants an answer.
  abbrev pub Quiet : ℕ → Attempt → Type 0
  Quiet i a = Waits i a × ((e : Str) × (a.answer ≡ read_error e true)) × (a.cancelled ≡ false)

  -- From round i on, with k attempts left.
  pub data Course (env : ℕ → Attempt) : ℕ → ℕ → Verdict → Type 0 where
    spent : {i : ℕ} → Course env i zero silent
    again :
        {i k : ℕ} {v : Verdict}
        → Quiet i (env i)
        → (env i).after < deadline
        → Course env (suc i) k v
        → Course env i (suc k) v
    late : {i k : ℕ} → Quiet i (env i) → deadline ≤ (env i).after → Course env i (suc k) silent
    taken :
        {i k : ℕ} (d : Str)
        → Waits i (env i)
        → (env i).answer ≡ datagram d
        → verdict_on x.accept (take mtu d) ≡ none
        → Course env i (suc k) (accepted (take mtu d))
    refused :
        {i k : ℕ} (d e : Str)
        → Waits i (env i)
        → (env i).answer ≡ datagram d
        → verdict_on x.accept (take mtu d) ≡ some e
        → Course env i (suc k) (definite e)
    unreachable :
        {i k : ℕ} (e : Str)
        → Waits i (env i)
        → (env i).answer ≡ read_error e false
        → Course env i (suc k) (definite e)
    cancelled :
        {i k : ℕ} (e : Str)
        → Waits i (env i)
        → (env i).answer ≡ read_error e true
        → (env i).cancelled ≡ true
        → Course env i (suc k) (definite e)
    not_sent :
        {i k : ℕ} (e : Str)
        → 0 < i
        → (env i).write_error ≡ some e
        → Course env i (suc k) (definite e)
    no_deadline :
        {i k : ℕ} (e : Str)
        → ((0 < i) → (env i).write_error ≡ none)
        → (env i).deadline_error ≡ some e
        → Course env i (suc k) (definite e)

-- What the variables of the loop say of a verdict.
abbrev pub Shows : Verdict → Loop → Type 0
Shows (accepted d) s = (s.ok ≡ true) × (s.reply ≡ d)
Shows (definite e) s = (s.ok ≡ false) × (s.definitive ≡ true) × (s.err ≡ e) × (s.reply ≡ [])
Shows silent s = (s.ok ≡ false) × (s.definitive ≡ false) × (s.reply ≡ [])

abbrev pub Pending : Loop → Type 0
Pending s = (s.ok ≡ false) × (s.definitive ≡ false) × (s.reply ≡ [])

module _ (x : UdpExchange) (deadline slice : ℕ) (env : ℕ → Attempt) where
  -- What a round's outcome means for the course from it on.
  abbrev Follows : ℕ → ℕ → Flow → Type 0
  Follows i k (break s) = (v : Verdict) × Course x deadline env i (suc k) v × Shows v s
  Follows i k (goes s) = Quiet x deadline i (env i) × ((env i).after < deadline) × Pending s

  judged-Follows :
      (i k : ℕ) (d : Str) (o : Option Str) (s : Loop)
      → Waits x deadline i (env i)
      → (env i).answer ≡ datagram d
      → verdict_on x.accept (take mtu d) ≡ o
      → Pending s
      → Follows i k (judged x deadline slice o (take mtu d) s)
  unfolding judged
  judged-Follows i k d none s w e v p = (accepted (take mtu d), taken d w e v, (refl, refl))
  judged-Follows i k d (some m) s w e v p = (definite m, refused d m w e v, (p.0, refl, refl, p.2))

  unanswered-Follows :
      (i k : ℕ) (m : Str) (stopped : Bool) (s : Loop)
      → Waits x deadline i (env i)
      → (env i).answer ≡ read_error m true
      → (env i).cancelled ≡ stopped
      → Pending s
      → Follows i k (unanswered x deadline slice (env i) m true s)
  unfolding unanswered
  unanswered-Follows i k m true s w e c p =
      rw (c, Follows) (definite m, cancelled m w e c, (p.0, refl, refl, p.2))
  unanswered-Follows i k m false s w e c p = elim (Bool-cases (ltb (env i).after deadline)) [
    | inl more ↦ rw (c, more, Follows) ((w, (m, e), c), ground arith, p)
    | inr over ↦ rw (c, over, Follows) (silent, late (w, (m, e), c) (ground arith), p)
  ]

  read-Follows :
      (i k : ℕ) (answer : ReadAnswer) (s : Loop)
      → Waits x deadline i (env i)
      → (env i).answer ≡ answer
      → Pending s
      → Follows i k (read x deadline slice (env i) answer s)
  unfolding read receive
  read-Follows i k (datagram d) s w e p = judged-Follows i k d _ s w e refl p
  read-Follows i k (read_error m true) s w e p = unanswered-Follows i k m _ s w e refl p
  read-Follows i k (read_error m false) s w e p =
      unfold unanswered in (definite m, unreachable m w e, (p.0, refl, refl, p.2))

  set_deadline-Follows :
      (i k : ℕ) (o : Option Str) (s : Loop)
      → ((0 < i) → (env i).write_error ≡ none)
      → (env i).deadline_error ≡ o
      → Pending s
      → Follows i k (fails_with o s >>= read x deadline slice (env i) (env i).answer)
  set_deadline-Follows i k none s w e p = read-Follows i k _ s (w, e) refl p
  set_deadline-Follows i k (some m) s w e p =
      (definite m, no_deadline m w e, (p.0, refl, refl, p.2))

  abbrev then_read : ℕ → Loop → Flow
  then_read i s =
      set_deadline x deadline slice (env i) s >>= read x deadline slice (env i) (env i).answer

  resend-Follows :
      (i k : ℕ) (o : Option Str) (s : Loop)
      → 0 < i
      → (env i).write_error ≡ o
      → Pending s
      → Follows i k (fails_with o s >>= then_read i)
  unfolding set_deadline
  resend-Follows i k none s h e p = set_deadline-Follows i k _ _ (λ _. e) refl p
  resend-Follows i k (some m) s h e p = (definite m, not_sent m h e, (p.0, refl, refl, p.2))

  round-Follows :
      (i k : ℕ) (s : Loop) → Pending s → Follows i k (round x deadline slice i (env i) s)
  unfolding round
  round-Follows zero k s p = set_deadline-Follows 0 k _ _ (λ h. elim h [ ]) refl p
  round-Follows (suc i) k s p =
      let later : ltb 0 (suc i) ≡ true = ground arith in
      rw later (resend-Follows (suc i) k _ _ (omega arith) refl p)

  -- From pending variables the loop ends in the verdict of a course.
  pub attempts_from-Course :
      (k i : ℕ) (s : Loop)
      → Pending s
      → (v : Verdict) × Course x deadline env i k v
        × Shows v (attempts_from x deadline slice env k i s)
  unfolding attempts_from
  attempts_from-Course zero i s p = (silent, spent, p)
  attempts_from-Course (suc k) i s p =
      next _ (round-Follows i k s p) (λ s' p'. attempts_from-Course k (suc i) s' p')
    where
      next :
          (f : Flow)
          → Follows i k f
          → ((s' : Loop)
              → Pending s'
              → (v : Verdict) × Course x deadline env (suc i) k v
                × Shows v (attempts_from x deadline slice env k (suc i) s'))
          → (v : Verdict) × Course x deadline env i (suc k) v
            × Shows v (elim f [
              | goes s' ↦ attempts_from x deadline slice env k (suc i) s'
              | break s' ↦ s'
            ])
      next (break s') h rest = h
      next (goes s') h rest = let (v, c, shown) = rest s' h.2 in (v, again h.0 h.1 c, shown)

  -- The variables after a round without an answer.
  abbrev pub after_quiet : ℕ → Str → Loop → Loop
  after_quiet i m s =
      let sent : Loop = if ltb 0 i then logged (wrote x.payload) s else s in
      record (logged (read_until (earlier ((env i).now + slice) deadline)) sent) { err = m }

  after_quiet-Pending : (i : ℕ) (m : Str) (s : Loop) → Pending s → Pending (after_quiet i m s)
  after_quiet-Pending i m s p = ground arith

  pub round-Quiet :
      (i : ℕ) (s : Loop) (q : Quiet x deadline i (env i))
      → (env i).after < deadline
      → round x deadline slice i (env i) s ≡ goes (after_quiet i q.1.0 s)
  unfolding round resend set_deadline read unanswered
  round-Quiet i s q early = ground arith

  -- The other way: the loop reaches whatever verdict a course has.
  pub complete :
      {i k : ℕ} {v : Verdict}
      → Course x deadline env i k v
      → (s : Loop) → Pending s
      → Shows v (attempts_from x deadline slice env k i s)
  unfolding attempts_from round resend set_deadline read receive judged unanswered
  complete spent s p = p
  complete (again {i} {k} q early c) s p =
      rw (round-Quiet i s q early, attempts_from)
        (complete c (after_quiet i q.1.0 s) (after_quiet-Pending i q.1.0 s p))
  complete (late q over) s p = ground arith
  complete (taken d w e v) s p = ground arith
  complete (refused d m w e v) s p = ground arith
  complete (unreachable m w e) s p = ground arith
  complete (cancelled m w e c) s p = ground arith
  complete (not_sent m h e) s p = ground arith
  complete (no_deadline m w e) s p = ground arith
