-- ===== src/Push/Delivery/Attempts.antt =====
-- Which attempts a push of cmd/nodecheck/push.go makes that succeeds, and what each one sends.
use tunnel_ops.Base.{
  ℕ, zero, suc, ◌+◌, ◌<◌, Str, List, [], ◌∷◌, ◌++◌, Option, none, some, length, ◌≡◌, refl, ap, inl,
  inr, arith, ok, take,
}
use tunnel_ops.Push.Delivery.{
  Request, PostError, permanent, transient, Answer, bad_request, no_response, response, request_of,
  Round, judge, post_once, attempted, interrupted, push_rounds, backoff, push_results, after,
  unless,
}
use tunnel_ops.Push.Delivery.Laws.{
  Accepts, MayRecover, Classified, judge-Classified, Delivers, push_results-none_iff,
}
use tunnel_ops.Push.Delivery.Requests.{post_once-MayRecover}

module _ (trim_space : Str → Str) (url token body : Str) (rounds : ℕ → Round) where
  Accepts-none :
      (code : ℕ) (status reply : Str) (o : Option PostError)
      → Classified (response code status reply) o
      → Accepts (response code status reply)
      → o ≡ none
  Accepts-none code status reply none c h = refl
  Accepts-none code status reply (some (permanent e)) c h = absurd (c.1 h)
  Accepts-none code status reply (some (transient e)) c h = absurd (c.1 h)

  post_once-Accepts :
      (a : Answer)
      → Accepts a
      → post_once trim_space url token body a ≡ (request_of url token body ∷ [], none)
  unfolding post_once
  post_once-Accepts (bad_request e) h = absurd h
  post_once-Accepts (no_response e) h = absurd h
  post_once-Accepts (response code status reply) h =
      let snippet = take 512 reply in
      ap (λ o. (request_of url token body ∷ [], o))
        (Accepts-none code status reply (judge trim_space code status snippet)
          (judge-Classified trim_space code status reply snippet) h)

  -- So many requests: the last one is accepted, and the others could be retried.
  abbrev pub Attempts : ℕ → ℕ → Type 0
  Attempts attempt n =
      (k : ℕ) × (n ≡ suc k)
      × Accepts (rounds (attempt + k)).answer
      × ((i : ℕ) → i < k → MayRecover (rounds (attempt + i)).answer)

  accepted-Attempts :
      (o : Option Str) (attempt : ℕ) (posted : List Request × Option PostError)
      (rest : Option Str → List Request × Option Str) (q : Request)
      → o ≡ none
      → posted ≡ (q ∷ [], none)
      → Accepts (rounds attempt).answer
      → Attempts attempt (
          length
            (unless o
              (posted.0 ++ (after attempt posted.1 rest).0, (after attempt posted.1 rest).1)).0)
  accepted-Attempts o attempt posted rest q h p taken =
      let same : attempt + 0 ≡ attempt = omega arith in
      rw (h, p) (0, refl, rw same taken, λ i l. absurd (omega (arith, l)))

  retried-Attempts :
      (o : Option Str) (attempt : ℕ) (posted : List Request × Option PostError)
      (rest : Option Str → List Request × Option Str) (q : Request) (e : Str)
      → o ≡ none
      → posted ≡ (q ∷ [], some (transient e))
      → MayRecover (rounds attempt).answer
      → ((last : Option Str) → Attempts (attempt + 1) (length (rest last).0))
      → Attempts attempt (
          length
            (unless o
              (posted.0 ++ (after attempt posted.1 rest).0, (after attempt posted.1 rest).1)).0)
  retried-Attempts o attempt posted rest q e h p recovers later =
      let (k, count, taken, others) = later (some (attempted attempt (transient e))) in
      let shift : (i : ℕ) → attempt + suc i ≡ attempt + 1 + i = λ i. omega arith in
      rw (h, p) (suc k, ap suc count, rw (shift k) taken, λ i l. earlier shift k others i l)
    where
      earlier :
          ((i : ℕ) → attempt + suc i ≡ attempt + 1 + i)
          → (k : ℕ) → ((i : ℕ) → i < k → MayRecover (rounds (attempt + 1 + i)).answer)
          → (i : ℕ) → i < suc k
          → MayRecover (rounds (attempt + i)).answer
      earlier shift k others zero l =
          let same : attempt + 0 ≡ attempt = omega arith in rw same recovers
      earlier shift k others (suc i) l = rw (shift i) (others i (omega (arith, l)))

  push_rounds-Attempts :
      (waits : List ℕ) (attempt : ℕ) (last : Option Str)
      → Delivers trim_space url token body rounds waits attempt
      → Attempts attempt
          (length (push_rounds trim_space url token body rounds waits attempt last).0)
  unfolding push_rounds
  push_rounds-Attempts [] attempt last h = absurd h
  push_rounds-Attempts (wait ∷ waits) attempt last (clear, inl taken) =
      accepted-Attempts (interrupted wait (rounds attempt)) attempt
        (post_once trim_space url token body (rounds attempt).answer)
        (push_rounds trim_space url token body rounds waits (attempt + 1))
        (request_of url token body) clear (post_once-Accepts (rounds attempt).answer taken) taken
  push_rounds-Attempts (wait ∷ waits) attempt last (clear, inr (recovers, later)) =
      let (e, posted) =
        post_once-MayRecover trim_space url token body rounds (rounds attempt).answer recovers in
      retried-Attempts (interrupted wait (rounds attempt)) attempt
        (post_once trim_space url token body (rounds attempt).answer)
        (push_rounds trim_space url token body rounds waits (attempt + 1))
        (request_of url token body) e clear posted recovers
        (λ last'. push_rounds-Attempts waits (attempt + 1) last' later)

  -- Of a push that succeeds, the last request was accepted, and each one before it could be retried.
  pub push_results-Attempts :
      (push_results trim_space url token (ok body) rounds).1 ≡ none
      → Attempts 0 (length (push_results trim_space url token (ok body) rounds).0)
  unfolding push_results
  push_results-Attempts h =
      push_rounds-Attempts backoff 0 none
        ((push_results-none_iff trim_space url token body rounds).0 h)
