-- ===== src/Udp/Exchange/Response.antt =====
-- The phases that `udpExchange.run` of cmd/nodecheck/prober_udp.go reports.
use tunnel_ops.Base.{
  ℕ, ◌-◌, ◌/◌, ◌<◌, Str, Bool, true, false, List, [], ◌∷◌, ◌++◌, Option, none, some, ◌≡◌, refl, ap,
  inl, inr, arith, Option-cases,
}
use tunnel_ops.Outcome.{Phase}
use tunnel_ops.Udp.Exchange.{
  UdpExchange, Env, Event, Loop, Exchanged, wrote, forgive, fresh, deadline, wait, first_write,
  set_write_deadline, dial, run, send_result, answered, opened, give_up,
}
use tunnel_ops.Udp.Exchange.Course.{
  Verdict, accepted, definite, silent, Course, Shows, attempts_from-Course, complete,
}

Shows-unique : (v w : Verdict) (s : Loop) → Shows v s → Shows w s → v ≡ w
Shows-unique (accepted d) (accepted d') s p q = cc
Shows-unique (accepted d) (definite e) s p q = cc
Shows-unique (accepted d) silent s p q = cc
Shows-unique (definite e) (accepted d) s p q = cc
Shows-unique (definite e) (definite e') s p q = cc
Shows-unique (definite e) silent s p q = cc
Shows-unique silent (accepted d) s p q = cc
Shows-unique silent (definite e) s p q = cc
Shows-unique silent silent s p q = refl

abbrev pub response_ok : Bool → Verdict → Bool
response_ok silence_ok (accepted d) = true
response_ok silence_ok (definite e) = false
response_ok silence_ok silent = silence_ok

abbrev pub reply_of : Verdict → Str
reply_of (accepted d) = d
reply_of (definite e) = []
reply_of silent = []

-- A definite failure's text is reported, and forgiven silence leaves none.
abbrev pub Reports : Bool → Verdict → Str → Type 0
Reports silence_ok (accepted d) e = Unit
Reports silence_ok (definite m) e = e ≡ m
Reports true silent e = e ≡ []
Reports false silent e = Unit

forgive-Shows :
    (b : Bool) (v : Verdict) (s : Loop)
    → Shows v s
    → ((forgive b s).ok ≡ response_ok b v)
      × ((forgive b s).reply ≡ reply_of v)
      × Reports b v (forgive b s).err
forgive-Shows b (accepted d) s h = rw (h.0, forgive) (refl, h.1, tt)
forgive-Shows b (definite e) s h = ground arith
forgive-Shows true silent s h = ground arith
forgive-Shows false silent s h = ground arith

-- The first error of calls that are made one after the other.
abbrev pub first_of_errors : Option Str → Option Str → Option Str
first_of_errors (some e) later = some e
first_of_errors none later = later

-- A list of phases of which only the last may have failed.
abbrev pub Stops : List Phase → Type 0
Stops [] = ⊥
Stops (ph ∷ []) = Unit
Stops (ph ∷ ph' ∷ phs) = (ph.ok ≡ true) × Stops (ph' ∷ phs)

module _ (x : UdpExchange) (env : Env) (timeout : ℕ) where
  -- The error of the first phase, if it has one.
  abbrev pub set_up_error : Option Str
  set_up_error =
      first_of_errors env.dial_error (first_of_errors env.write_deadline_error env.write_error)

  abbrev pub TheCourse : Verdict → Type 0
  TheCourse = Course x (deadline x env timeout) env.attempt 0 x.attempts

  -- The wait for an answer has exactly one verdict.
  pub verdict_unique : (v : Verdict) × TheCourse v × ((w : Verdict) → TheCourse w → w ≡ v)
  verdict_unique =
      let (v, c, shown) =
        attempts_from-Course x (deadline x env timeout) 0 env.attempt x.attempts 0 (fresh [])
          (refl, refl, refl) in
      (
        v,
        c,
        λ w c'.
            Shows-unique w v _ (complete x _ 0 env.attempt c' (fresh []) (refl, refl, refl)) shown,
      )

  abbrev FailsWith : Str → Option Exchanged → Type 0
  FailsWith e o =
      (r : Exchanged) × (o ≡ some r)
      × ((d : ℕ) × (r.phases
            ≡ record { name = x.send_phase; ok = false; duration = d; err = e } ∷ []))
      × (r.reply ≡ [])

  give_up-FailsWith :
      (at : ℕ) (m e : Str) (log : List Event)
      → some m ≡ some e
      → FailsWith e (give_up x env timeout at m log)
  give_up-FailsWith at m e log h = (_, refl, (at - env.start, cc), refl)

  first_write-FailsWith :
      (o : Option Str) (e : Str) → o ≡ some e → FailsWith e (first_write x env timeout o)
  unfolding first_write
  first_write-FailsWith none e h = cc
  first_write-FailsWith (some m) e h = give_up-FailsWith _ m e _ h

  set_write_deadline-FailsWith :
      (o : Option Str) (e : Str)
      → first_of_errors o env.write_error ≡ some e
      → FailsWith e (set_write_deadline x env timeout o)
  unfolding set_write_deadline
  set_write_deadline-FailsWith none e h = first_write-FailsWith _ e h
  set_write_deadline-FailsWith (some m) e h = give_up-FailsWith _ m e _ h

  dial-FailsWith :
      (o : Option Str) (e : Str)
      → first_of_errors o (first_of_errors env.write_deadline_error env.write_error) ≡ some e
      → FailsWith e (dial x env timeout o)
  unfolding dial
  dial-FailsWith none e h = set_write_deadline-FailsWith _ e h
  dial-FailsWith (some m) e h = give_up-FailsWith _ m e _ h

  -- If the set-up fails, its error is reported on the send phase, and that phase is the only one.
  pub run_not_set_up :
      (e : Str)
      → set_up_error ≡ some e
      → (r : Exchanged) × (run x env timeout ≡ some r)
        × ((d : ℕ) × (r.phases
              ≡ record { name = x.send_phase; ok = false; duration = d; err = e } ∷ []))
        × (r.reply ≡ [])
  unfolding run
  run_not_set_up e h = dial-FailsWith env.dial_error e h

  -- With the set-up done, `run` goes on to the second phase.
  pub run_set_up :
      set_up_error ≡ none
      → 0 < x.attempts
      → (log : List Event) × (run x env timeout
          ≡ some (answered x env timeout (wait x env timeout (timeout / x.attempts) log)))
  unfolding run
  run_set_up h h' = (opened x env timeout ++ wrote x.payload ∷ [], ground arith)

  waited :
      (slice : ℕ) (log : List Event) (v : Verdict)
      → TheCourse v
      → let s = wait x env timeout slice log in
        (s.ok ≡ response_ok x.silence_ok v) × (s.reply ≡ reply_of v) × Reports x.silence_ok v s.err
  unfolding wait
  waited slice log v c =
      forgive-Shows x.silence_ok v _
        (complete x _ slice env.attempt c (fresh log) (refl, refl, refl))

  -- Two phases: the send phase, which passed and has no error, and the response phase, which says
  -- what the verdict says.
  abbrev pub Responds : Verdict → Type 0
  Responds v =
      (r : Exchanged) × (sent resp : Phase) × (run x env timeout ≡ some r)
      × (r.phases ≡ sent ∷ resp ∷ [])
      × (sent
          ≡ record { name = x.send_phase; ok = true; duration = env.set_up - env.start; err = [] })
      × (resp.name ≡ x.resp_phase)
      × (resp.ok ≡ response_ok x.silence_ok v)
      × Reports x.silence_ok v resp.err
      × (r.reply ≡ reply_of v)

  -- After a set-up without error, with an attempt to make: for a verdict that the attempts lead to,
  -- `run` reports two phases. The send phase passed. The response phase passed if a datagram was
  -- accepted, which is then the reply; failed with the error's text after a definite error; and
  -- after silence it passed, without a text, exactly where silence is allowed.
  pub run_response : (v : Verdict) → set_up_error ≡ none → 0 < x.attempts → TheCourse v → Responds v
  unfolding run
  run_response v h h' c =
      let (log, e) = run_set_up h h' in
      let slice = timeout / x.attempts in
      let shown = waited slice log v c in
      (
        answered x env timeout (wait x env timeout slice log),
        send_result x env timeout true env.set_up [],
        _,
        e,
        refl,
        refl,
        refl,
        shown.0,
        shown.2,
        shown.1,
      )

  -- After a set-up without error, with an attempt to make, the attempts always lead to a verdict,
  -- and `run` returns what that verdict says.
  pub run_verdict : set_up_error ≡ none → 0 < x.attempts → (v : Verdict) × TheCourse v × Responds v
  run_verdict h h' = let (v, c, only) = verdict_unique in (v, c, run_response v h h' c)

  -- `run` does not panic if it may try at all, and only its last phase can have failed.
  pub run-Stops : 0 < x.attempts → (r : Exchanged) × (run x env timeout ≡ some r) × Stops r.phases
  run-Stops h = elim (Option-cases set_up_error) [
    | inr (e, failed) ↦ let (r, ran, (d, one), _) = run_not_set_up e failed in (r, ran, rw one tt)
    | inl set_up ↦
        let (v, c, _) = verdict_unique in
        let answer = run_response v set_up h c in
        (answer.0, answer.3, rw answer.4 (ap (λ ph. ph.ok) answer.5, tt))
  ]
