-- ===== src/Udp/Exchange/Stale.antt =====
-- A response phase of cmd/nodecheck/prober_udp.go that is reported as passed and with an error: the
-- text of an earlier wait that ran out is never cleared.
use tunnel_ops.Base.{ℕ, suc, ◌/◌, ◌<◌, Str, true, [], ◌∷◌, none, some, take, ◌≡◌, refl, arith}
use tunnel_ops.Outcome.{Phase}
use tunnel_ops.Udp.Exchange.{
  UdpExchange, datagram, read_error, Attempt, Env, Loop, Exchanged, mtu, verdict_on, fresh, resend,
  set_deadline, judged, receive, read, round, attempts_from, deadline, wait, run, answered,
  send_result,
}
use tunnel_ops.Udp.Exchange.Course.{Waits, Quiet, round-Quiet, after_quiet}
use tunnel_ops.Udp.Exchange.Response.{set_up_error, run_set_up}

module _ (x : UdpExchange) (limit slice : ℕ) (env : ℕ → Attempt) where
  answered_later :
      (i k : ℕ) (s : Loop) (d : Str)
      → Waits x limit i (env i)
      → (env i).answer ≡ datagram d
      → verdict_on x.accept (take mtu d) ≡ none
      → ((attempts_from x limit slice env (suc k) i s).ok ≡ true)
        × ((attempts_from x limit slice env (suc k) i s).err ≡ s.err)
  unfolding attempts_from round resend set_deadline read receive judged
  answered_later i k s d w e v = ground arith

  quiet_then_answered :
      (n k : ℕ) (s : Loop) (d : Str) (q : Quiet x limit 0 (env 0))
      → n ≡ suc (suc k)
      → (env 0).after < limit
      → Waits x limit 1 (env 1)
      → (env 1).answer ≡ datagram d
      → verdict_on x.accept (take mtu d) ≡ none
      → ((attempts_from x limit slice env n 0 s).ok ≡ true)
        × ((attempts_from x limit slice env n 0 s).err ≡ q.1.0)
  unfolding attempts_from
  quiet_then_answered n k s d q enough early w e v =
      rw (enough, attempts_from, round-Quiet x limit slice env 0 s q early)
        (answered_later 1 k (after_quiet x limit slice env 0 q.1.0 s) d w e v)

module _ (x : UdpExchange) (env : Env) (timeout : ℕ) where
  -- If the first wait runs out and the second datagram sent is answered, the response phase is
  -- reported as passed, together with the text of the first wait's error.
  pub passed_with_error :
      (m d : Str) (k : ℕ)
      → set_up_error x env timeout ≡ none
      → x.attempts ≡ suc (suc k)
      → Quiet x (deadline x env timeout) 0 (env.attempt 0)
      → (env.attempt 0).answer ≡ read_error m true
      → (env.attempt 0).after < deadline x env timeout
      → Waits x (deadline x env timeout) 1 (env.attempt 1)
      → (env.attempt 1).answer ≡ datagram d
      → verdict_on x.accept (take mtu d) ≡ none
      → (r : Exchanged) × (sent resp : Phase) × (run x env timeout ≡ some r)
        × (r.phases ≡ sent ∷ resp ∷ [])
        × (resp.ok ≡ true)
        × (resp.err ≡ m)
  unfolding wait
  passed_with_error m d k up enough quiet a₀ early w₁ a₁ v =
      let (log, e) = run_set_up x env timeout up (omega arith) in
      let slice = timeout / x.attempts in
      let shown =
        quiet_then_answered x (deadline x env timeout) slice env.attempt x.attempts k (fresh log) d
          quiet enough early w₁ a₁ v in
      let text : quiet.1.0 ≡ m = cc in
      (
        answered x env timeout (wait x env timeout slice log),
        send_result x env timeout true env.set_up [],
        _,
        e,
        refl,
        ground (arith, shown),
        ground (arith, shown, text),
      )
