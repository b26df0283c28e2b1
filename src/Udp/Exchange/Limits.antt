-- ===== src/Udp/Exchange/Limits.antt =====
-- What `udpExchange.run` of cmd/nodecheck/prober_udp.go does to the connection.
use tunnel_ops.Base.{
  ℕ, ◌+◌, ◌-◌, ◌/◌, ◌≤◌, ◌<◌, Str, Bool, List, [], ◌∷◌, ◌++◌, Option, none, some, ◌≡◌, refl, ◌≢◌,
  ◌⊎◌, inl, inr, arith, All,
}
use tunnel_ops.Udp.Exchange.{
  UdpExchange, Env, Event, Loop, Exchanged, wrote, closed, attempts_from, forgive, fresh, deadline,
  wait, opened, quotient, second_phase, first_write, set_write_deadline, dial, run, answered,
}
use tunnel_ops.Udp.Exchange.Calls.{datagrams, Sane, Within, loop-Within}

module _ (x : UdpExchange) (env : Env) (timeout : ℕ) where
  -- The calls on a connection that was opened, before it is closed.
  abbrev pub Keeps : List Event → Type 0
  Keeps calls = (datagrams calls ≤ x.attempts) × All (Sane x.payload (deadline x env timeout)) calls

  abbrev pub Closes : List Event → Type 0
  Closes log = (calls : List Event) × (log ≡ calls ++ closed ∷ []) × Keeps calls

  abbrev Ends : Option Exchanged → Type 0
  Ends o = (r : Exchanged) × (o ≡ some r) × Closes r.log

  forgive-log : (b : Bool) (s : Loop) → (forgive b s).log ≡ s.log
  forgive-log b s = ground arith

  second_phase-Ends :
      0 < x.attempts
      → (log : List Event) → Within x (deadline x env timeout) 0 1 log
      → Ends (second_phase x env timeout log (quotient x env timeout x.attempts))
  unfolding second_phase wait
  second_phase-Ends h log w =
      let slice = timeout / x.attempts in
      let calls = (wait x env timeout slice log).log in
      let limit = deadline x env timeout in
      let kept : Within x limit slice (1 + (x.attempts - 1)) calls =
        rw
          (forgive-log x.silence_ok
            (attempts_from x limit slice env.attempt x.attempts 0 (fresh log)))
          (loop-Within x limit slice env.attempt x.attempts 1 (fresh log) w) in
      (
        answered x env timeout (wait x env timeout slice log),
        ground arith,
        (calls, refl, (omega arith, kept.1)),
      )

  first_write-Ends : (o : Option Str) → 0 < x.attempts → Ends (first_write x env timeout o)
  unfolding first_write
  first_write-Ends none h = second_phase-Ends h _ (omega arith, (tt, (refl, tt)))
  first_write-Ends (some e) h = (
    _,
    refl,
    (opened x env timeout ++ wrote x.payload ∷ [], refl, (omega arith, (tt, (refl, tt)))),
  )

  set_write_deadline-Ends :
      (o : Option Str) → 0 < x.attempts → Ends (set_write_deadline x env timeout o)
  unfolding set_write_deadline
  set_write_deadline-Ends none h = first_write-Ends _ h
  set_write_deadline-Ends (some e) h =
      (_, refl, (opened x env timeout, refl, (omega arith, (tt, tt))))

  abbrev Limited : Option Exchanged → Type 0
  Limited o =
      (r : Exchanged) × (o ≡ some r)
      × (((env.dial_error ≢ none) × (r.log ≡ [])) ⊎ ((env.dial_error ≡ none) × Closes r.log))

  dial-Limited :
      (o : Option Str) → env.dial_error ≡ o → 0 < x.attempts → Limited (dial x env timeout o)
  unfolding dial
  dial-Limited none e h =
      let (r, run_r, closes) = set_write_deadline-Ends env.write_deadline_error h in
      (r, run_r, inr (e, closes))
  dial-Limited (some m) e h = (_, refl, inl (λ e'. cc, refl))

  -- If dialling fails, no call is made on the connection. Otherwise it is closed last, at most
  -- `attempts` datagrams were written before, each of them the payload, and no read was asked to
  -- wait past the deadline of the phase.
  pub run_limits :
      0 < x.attempts
      → (r : Exchanged) × (run x env timeout ≡ some r)
        × (((env.dial_error ≢ none) × (r.log ≡ [])) ⊎ ((env.dial_error ≡ none) × Closes r.log))
  unfolding run
  run_limits h = dial-Limited env.dial_error refl h
