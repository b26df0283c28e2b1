-- ===== src/Udp/Exchange.antt =====
-- cmd/nodecheck/prober_udp.go: `udpExchange.run`. What the operating system and the clock answer is
-- an argument: one record for the set-up, and one for each attempt. The loop's effects are a log.
-- `none` is a panic, here the division by the number of attempts.
pub mod Calls
pub mod Course
pub mod Response
pub mod Limits
pub mod Stale
use tunnel_ops.Base.{
  ℕ, zero, suc, ◌+◌, ◌-◌, ◌/◌, Str, Bool, true, false, not, ◌&&◌, List, [], ◌∷◌, ◌++◌, Option, none,
  some, if◌then◌else◌, ltb, take,
}
use tunnel_ops.Outcome.{Phase}

pub record UdpExchange : Type 0 where
  pub addr : Str
  pub payload : Str
  pub attempts : ℕ
  pub send_phase : Str
  pub resp_phase : Str
  -- `none` is a nil function; a function returns an error's text, or `none`.
  pub accept : Option (Str → Option Str)
  pub silence_ok : Bool

-- The error of a read, and whether it is a `net.Error` that is a timeout.
pub data ReadAnswer : Type 0 where
  datagram : Str → ReadAnswer
  read_error : Str → Bool → ReadAnswer

-- What one round of the loop meets. An error is its text, or `none`.
pub record Attempt : Type 0 where
  pub write_error : Option Str
  pub now : ℕ
  pub deadline_error : Option Str
  pub answer : ReadAnswer
  pub cancelled : Bool
  pub after : ℕ

pub record Env : Type 0 where
  pub start : ℕ
  pub dial_error : Option Str
  pub dialled : ℕ
  pub before_write : ℕ
  pub write_deadline_error : Option Str
  pub write_error : Option Str
  pub set_up : ℕ
  pub waiting_from : ℕ
  pub ctx_deadline : Option ℕ
  pub restarted : ℕ
  pub attempt : ℕ → Attempt
  pub finished : ℕ

-- The calls on the connection.
pub data Event : Type 0 where
  write_until : ℕ → Event
  wrote : Str → Event
  read_until : ℕ → Event
  closed : Event

-- The variables of the loop: the response phase's OK and Err, the reply, `definitive`, and the log.
-- A nil reply is [], which is also what copying an empty datagram gives.
pub record Loop : Type 0 where
  pub ok : Bool
  pub err : Str
  pub reply : Str
  pub definitive : Bool
  pub log : List Event

pub record Exchanged : Type 0 where
  pub phases : List Phase
  pub reply : Str
  pub log : List Event

-- A statement of the loop's body: it goes on, or breaks.
pub data Flow : Type 0 where
  goes break : Loop → Flow

infixl 5 ◌>>=◌
abbrev pub ◌>>=◌ : Flow → (Loop → Flow) → Flow
goes s >>= f = f s
break s >>= f = break s

abbrev pub mtu : ℕ
mtu = 1500

abbrev definitively : Str → Loop → Loop
definitively e s = record s { err = e; definitive = true }

abbrev logged : Event → Loop → Loop
logged event s = record s { log = s.log ++ event ∷ [] }

abbrev fails_with : Option Str → Loop → Flow
fails_with none s = goes s
fails_with (some e) s = break (definitively e s)

-- `if wait.After(deadline) { wait = deadline }`, and the like for a context's deadline.
abbrev pub earlier : ℕ → ℕ → ℕ
earlier a b = if ltb b a then b else a

abbrev pub deadline_from : Option ℕ → ℕ → ℕ
deadline_from none d = d
deadline_from (some c) d = if ltb c d then c else d

-- `x.accept`, a nil function taking everything.
abbrev pub verdict_on : Option (Str → Option Str) → Str → Option Str
verdict_on none d = none
verdict_on (some f) d = f d

module _ (x : UdpExchange) (deadline slice : ℕ) where
  resend : ℕ → Attempt → Loop → Flow
  resend i a s = if ltb 0 i then fails_with a.write_error (logged (wrote x.payload) s) else goes s

  set_deadline : Attempt → Loop → Flow
  set_deadline a s =
      fails_with a.deadline_error (logged (read_until (earlier (a.now + slice) deadline)) s)

  judged : Option Str → Str → Loop → Flow
  judged (some e) d s = break (definitively e s)
  judged none d s = break (record s { reply = d; ok = true })

  -- A received datagram, cut to the buffer.
  receive : Str → Loop → Flow
  unfolding judged
  receive d s = judged (verdict_on x.accept d) d s

  -- A read that failed.
  unanswered : Attempt → Str → Bool → Loop → Flow
  unanswered a e timed_out s =
      if not timed_out
      then break (definitively e s)
      else if a.cancelled
      then break (definitively e s)
      else if not (ltb a.after deadline)
      then break (record s { err = e })
      else goes (record s { err = e })

  read : Attempt → ReadAnswer → Loop → Flow
  read a (datagram d) s = receive (take mtu d) s
  read a (read_error e timed_out) s = unanswered a e timed_out s

  -- The body of the loop.
  pub round : ℕ → Attempt → Loop → Flow
  unfolding resend set_deadline read receive unanswered
  round i a s = do s₁ ← resend i a s; s₂ ← set_deadline a s₁; read a a.answer s₂

  -- `for attempt := i; …`, with k attempts left: the rounds from here on, and what a round leads to.
  pub attempts_from : (ℕ → Attempt) → ℕ → ℕ → Loop → Loop
  attempts_from env zero i s = s
  attempts_from env (suc k) i s = elim (round i (env i) s) [
    | goes s' ↦ attempts_from env k (suc i) s'
    | break s' ↦ s'
  ]

-- `if !respPhase.OK && x.silenceOK && !definitive`
abbrev pub forgive : Bool → Loop → Loop
forgive silence_ok s =
    if not s.ok && (silence_ok && not s.definitive) then record s { ok = true; err = [] } else s

abbrev pub fresh : List Event → Loop
fresh log = record { ok = false; err = []; reply = []; definitive = false; log = log }

module _ (x : UdpExchange) (env : Env) (timeout : ℕ) where
  abbrev pub send_result : Bool → ℕ → Str → Phase
  send_result ok at err = record {
    name = x.send_phase;
    ok = ok;
    duration = at - env.start;
    err = err;
  }

  -- A return from the first phase with its error.
  abbrev give_up : ℕ → Str → List Event → Option Exchanged
  give_up at e log = some (record { phases = send_result false at e ∷ []; reply = []; log = log })

  abbrev pub deadline : ℕ
  deadline = deadline_from env.ctx_deadline (env.waiting_from + timeout)

  -- The loop, and the check for silence behind it.
  pub wait : ℕ → List Event → Loop
  unfolding attempts_from
  wait slice log =
      forgive x.silence_ok (attempts_from x deadline slice env.attempt x.attempts 0 (fresh log))

  abbrev pub answered : Loop → Exchanged
  answered s = record {
    phases =
        send_result true env.set_up []
        ∷ record {
          name = x.resp_phase;
          ok = s.ok;
          duration = env.finished - env.restarted;
          err = s.err;
        }
        ∷ [];
    reply = s.reply;
    log = s.log ++ closed ∷ [];
  }

  abbrev quotient : ℕ → Option ℕ
  quotient zero = none
  quotient (suc n) = some (timeout / suc n)

  second_phase : List Event → Option ℕ → Option Exchanged
  unfolding wait
  second_phase log none = none
  second_phase log (some slice) = some (answered (wait slice log))

  abbrev opened : List Event
  opened = write_until (env.before_write + timeout) ∷ []

  first_write : Option Str → Option Exchanged
  unfolding second_phase
  first_write (some e) = give_up env.set_up e (opened ++ wrote x.payload ∷ closed ∷ [])
  first_write none = second_phase (opened ++ wrote x.payload ∷ []) (quotient x.attempts)

  set_write_deadline : Option Str → Option Exchanged
  unfolding first_write
  set_write_deadline (some e) = give_up env.set_up e (opened ++ closed ∷ [])
  set_write_deadline none = first_write env.write_error

  dial : Option Str → Option Exchanged
  unfolding set_write_deadline
  dial (some e) = give_up env.dialled e []
  dial none = set_write_deadline env.write_deadline_error

  -- `udpExchange.run`
  unfoldable pub run : Option Exchanged
  unfolding dial
  run = dial env.dial_error
