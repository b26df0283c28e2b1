-- ===== src/Udp/Exchange/Calls.antt =====
-- What the loop of `udpExchange.run` of cmd/nodecheck/prober_udp.go does to the connection.
use tunnel_ops.Base.{
  ℕ, zero, suc, ◌+◌, ◌-◌, ◌≤◌, Str, Bool, true, false, List, [], ◌∷◌, ◌++◌, Option, none, some, ltb,
  ◌≡◌, refl, inl, inr, arith, Bool-cases, All, All-append,
}
use tunnel_ops.Udp.Exchange.{
  UdpExchange, ReadAnswer, datagram, read_error, Attempt, Event, Loop, Flow, goes, break, ◌>>=◌,
  write_until, wrote, read_until, closed, earlier, fails_with, set_deadline, judged, receive,
  unanswered, read, round, attempts_from,
}

abbrev pub datagrams : List Event → ℕ
datagrams [] = 0
datagrams (write_until t ∷ es) = datagrams es
datagrams (wrote p ∷ es) = suc (datagrams es)
datagrams (read_until t ∷ es) = datagrams es
datagrams (closed ∷ es) = datagrams es

datagrams-append : (es fs : List Event) → datagrams (es ++ fs) ≡ datagrams es + datagrams fs
datagrams-append [] fs = omega arith
datagrams-append (write_until t ∷ es) fs = datagrams-append es fs
datagrams-append (wrote p ∷ es) fs = omega (arith, datagrams-append es fs)
datagrams-append (read_until t ∷ es) fs = datagrams-append es fs
datagrams-append (closed ∷ es) fs = datagrams-append es fs

-- A call on an open connection that keeps to the payload and to the phase's budget.
abbrev pub Sane : Str → ℕ → Event → Type 0
Sane payload limit (write_until t) = Unit
Sane payload limit (wrote p) = p ≡ payload
Sane payload limit (read_until t) = t ≤ limit
Sane payload limit closed = ⊥

module _ (x : UdpExchange) (limit slice : ℕ) where
  abbrev pub Within : ℕ → List Event → Type 0
  Within n log = (datagrams log ≤ n) × All (Sane x.payload limit) log

  abbrev Each : ℕ → Flow → Type 0
  Each n (goes s) = Within n s.log
  Each n (break s) = Within n s.log

  append-Within :
      (m n : ℕ) (es fs : List Event) → Within m es → Within n fs → Within (m + n) (es ++ fs)
  append-Within m n es fs h k = (omega (arith, datagrams-append es fs), All-append _ es fs h.1 k.1)

  weaken : (m n : ℕ) (es : List Event) → m ≤ n → Within m es → Within n es
  weaken m n es h w = (omega arith, w.1)

  >>=-Each :
      (n : ℕ) (f : Flow) (g : Loop → Flow)
      → Each n f
      → ((s : Loop) → Within n s.log → Each n (g s))
      → Each n (f >>= g)
  >>=-Each n (goes s) g h k = k s h
  >>=-Each n (break s) g h k = h

  fails_with-Each : (n : ℕ) (o : Option Str) (s : Loop) → Within n s.log → Each n (fails_with o s)
  fails_with-Each n none s h = h
  fails_with-Each n (some e) s h = h

  set_deadline-Each :
      (n : ℕ) (a : Attempt) (s : Loop) → Within n s.log → Each n (set_deadline x limit slice a s)
  unfolding set_deadline
  set_deadline-Each n a s h = fails_with-Each n a.deadline_error _ (
      weaken (n + 0) n _ (omega arith) (
        append-Within n 0 s.log (read_until (earlier (a.now + slice) limit) ∷ []) h
          (omega arith, (ground arith, tt))))

  judged-Each :
      (n : ℕ) (o : Option Str) (d : Str) (s : Loop)
      → Within n s.log
      → Each n (judged x limit slice o d s)
  unfolding judged
  judged-Each n none d s h = h
  judged-Each n (some e) d s h = h

  unanswered-Each :
      (n : ℕ) (a : Attempt) (e : Str) (b : Bool) (s : Loop)
      → Within n s.log
      → Each n (unanswered x limit slice a e b s)
  unfolding unanswered
  unanswered-Each n a e false s h = h
  unanswered-Each n a e true s h = elim (Bool-cases a.cancelled) [
    | inl c ↦ rw (c, Each) h
    | inr c ↦ elim (Bool-cases (ltb a.after limit)) [
      | inl l ↦ rw (c, l, Each) h
      | inr l ↦ rw (c, l, Each) h
    ]
  ]

  read-Each :
      (n : ℕ) (a : Attempt) (r : ReadAnswer) (s : Loop)
      → Within n s.log
      → Each n (read x limit slice a r s)
  unfolding read receive
  read-Each n a (datagram d) s h = judged-Each n _ _ s h
  read-Each n a (read_error e b) s h = unanswered-Each n a e b s h

  after_resend-Each :
      (n : ℕ) (a : Attempt) (f : Flow)
      → Each n f
      → Each n
          (f >>= λ s. set_deadline x limit slice a s >>= λ s'. read x limit slice a a.answer s')
  after_resend-Each n a f h =
      >>=-Each n f _ h
        (λ s k. >>=-Each n _ _ (set_deadline-Each n a s k) (λ s' k'. read-Each n a a.answer s' k'))

  first_round-Each :
      (n : ℕ) (a : Attempt) (s : Loop) → Within n s.log → Each n (round x limit slice 0 a s)
  unfolding round
  first_round-Each n a s h = after_resend-Each n a (goes s) h

  later_round-Each :
      (n i : ℕ) (a : Attempt) (s : Loop)
      → Within n s.log
      → Each (n + 1) (round x limit slice (suc i) a s)
  unfolding round
  later_round-Each n i a s h =
      let later : ltb 0 (suc i) ≡ true = ground arith in
      rw later (
        after_resend-Each (n + 1) a _ (
          fails_with-Each (n + 1) a.write_error _
            (append-Within n 1 s.log (wrote x.payload ∷ []) h (omega arith, (refl, tt)))))

  module _ (env : ℕ → Attempt) where
    rest-Within :
        (k i n : ℕ) (s : Loop)
        → Within n s.log
        → Within (n + k) (attempts_from x limit slice env k (suc i) s).log
    unfolding attempts_from
    rest-Within zero i n s h = weaken n (n + 0) s.log (omega arith) h
    rest-Within (suc k) i n s h =
        next _ (later_round-Each n i (env (suc i)) s h)
          (λ s' h'. rest-Within k (suc i) (n + 1) s' h')
      where
        next :
            (f : Flow)
            → Each (n + 1) f
            → ((s' : Loop)
                → Within (n + 1) s'.log
                → Within (n + 1 + k) (attempts_from x limit slice env k (suc (suc i)) s').log)
            → Within
                (n + suc k)
                (elim f as (λ g. Loop) [
                  | goes s' ↦ attempts_from x limit slice env k (suc (suc i)) s'
                  | break s' ↦ s'
                ]).log
        next (goes s') e ih = weaken (n + 1 + k) (n + suc k) _ (omega arith) (ih s' e)
        next (break s') e ih = weaken (n + 1) (n + suc k) _ (omega arith) e

    pub loop-Within :
        (k n : ℕ) (s : Loop)
        → Within n s.log
        → Within (n + (k - 1)) (attempts_from x limit slice env k 0 s).log
    unfolding attempts_from
    loop-Within zero n s h = weaken n (n + (0 - 1)) s.log (omega arith) h
    loop-Within (suc k) n s h = next _ (first_round-Each n (env 0) s h)
      where
        next :
            (f : Flow)
            → Each n f
            → Within
                (n + (suc k - 1))
                (elim f as (λ g. Loop) [
                  | goes s' ↦ attempts_from x limit slice env k 1 s'
                  | break s' ↦ s'
                ]).log
        next (goes s') e = weaken (n + k) (n + (suc k - 1)) _ (omega arith) (rest-Within k 0 n s' e)
        next (break s') e = weaken n (n + (suc k - 1)) _ (omega arith) e
