-- ===== src/Push/Delivery/Requests.antt =====
-- What `pushResults` of cmd/nodecheck/push.go sends, and when it gives up.
use tunnel_ops.Base.{
  ℕ, zero, suc, ◌+◌, ◌≤◌, Str, List, [], ◌∷◌, ◌++◌, Option, none, some, length, All, All-append,
  length-append, ◌≡◌, refl, ap, arith, ok, take,
}
use tunnel_ops.Push.Delivery.{
  Request, PostError, permanent, transient, Answer, bad_request, no_response, response, request_of,
  Round, judge, post_once, attempted, interrupted, push_rounds, backoff, push_results, after,
  unless,
}
use tunnel_ops.Push.Delivery.Laws.{Rejects, MayRecover, Classified, judge-Classified, Waits}

module _ (trim_space : Str → Str) (url token body : Str) (rounds : ℕ → Round) where
  abbrev Same : Request → Type 0
  Same q = q ≡ request_of url token body

  post_once-requests :
      (a : Answer)
      → let sent = (post_once trim_space url token body a).0 in All Same sent × (length sent ≤ 1)
  unfolding post_once
  post_once-requests (bad_request e) = (tt, omega arith)
  post_once-requests (no_response e) = ((refl, tt), omega arith)
  post_once-requests (response code status reply) = ((refl, tt), omega arith)

  -- A log of at most so many requests, all of them the same.
  abbrev pub Repeats : ℕ → List Request → Type 0
  Repeats n log = All (λ q. q ≡ request_of url token body) log × (length log ≤ n)

  unless-Repeats :
      (o : Option Str) (went : List Request × Option Str) (n : ℕ)
      → Repeats n went.0
      → Repeats n (unless o went).0
  unless-Repeats none went n h = h
  unless-Repeats (some e) went n h = (tt, omega arith)

  after-Repeats :
      (attempt n : ℕ) (o : Option PostError) (rest : Option Str → List Request × Option Str)
      → ((last : Option Str) → Repeats n (rest last).0)
      → Repeats n (after attempt o rest).0
  after-Repeats attempt n none rest h = (tt, omega arith)
  after-Repeats attempt n (some (permanent e)) rest h = (tt, omega arith)
  after-Repeats attempt n (some (transient e)) rest h = h _

  push_rounds-Repeats :
      (waits : List ℕ) (attempt : ℕ) (last : Option Str)
      → Repeats (length waits) (push_rounds trim_space url token body rounds waits attempt last).0
  unfolding push_rounds
  push_rounds-Repeats [] attempt last = (tt, omega arith)
  push_rounds-Repeats (wait ∷ waits) attempt last =
      let went = post_once trim_space url token body (rounds attempt).answer in
      let rest = push_rounds trim_space url token body rounds waits (attempt + 1) in
      let sent = post_once-requests (rounds attempt).answer in
      let later =
        after-Repeats attempt (length waits) went.1 rest
          (push_rounds-Repeats waits (attempt + 1)) in
      unless-Repeats (interrupted wait (rounds attempt))
        (went.0 ++ (after attempt went.1 rest).0, (after attempt went.1 rest).1)
        (suc (length waits))
        (
          All-append Same went.0 (after attempt went.1 rest).0 sent.0 later.0,
          omega (arith, length-append went.0 (after attempt went.1 rest).0, sent.1, later.1),
        )

  -- At most three requests are sent, and all of them are the same: the URL, the encoded payload
  -- with its run identifier, and the headers.
  pub push_results-Repeats : Repeats 3 (push_results trim_space url token (ok body) rounds).0
  unfolding push_results
  push_results-Repeats = push_rounds-Repeats backoff 0 none

  -- What the error is, and how many requests were sent, where an attempt is refused for good.
  abbrev pub GivesUp : List ℕ → ℕ → ℕ → Type 0
  GivesUp [] attempt k = ⊥
  GivesUp (wait ∷ waits) attempt zero =
      Waits trim_space url token body rounds wait attempt × Rejects (rounds attempt).answer
  GivesUp (wait ∷ waits) attempt (suc k) =
      Waits trim_space url token body rounds wait attempt
      × MayRecover (rounds attempt).answer
      × GivesUp waits (attempt + 1) k

  abbrev Ended : ℕ → ℕ → List Request × Option Str → Type 0
  Ended attempt k went =
      (length went.0 ≡ k + 1)
      × ((e : Str) × (went.1 ≡ some (attempted (attempt + k) (permanent e))))

  Rejects-permanent :
      (code : ℕ) (status reply : Str) (o : Option PostError)
      → Classified (response code status reply) o
      → Rejects (response code status reply)
      → (e : Str) × (o ≡ some (permanent e))
  Rejects-permanent code status reply none c h = absurd (omega (arith, c.1, h.0))
  Rejects-permanent code status reply (some (permanent e)) c h = (e, refl)
  Rejects-permanent code status reply (some (transient e)) c h = absurd (ground arith)

  post_once-Rejects :
      (a : Answer)
      → Rejects a
      → (e : Str) × (post_once trim_space url token body a
          ≡ (request_of url token body ∷ [], some (permanent e)))
  unfolding post_once
  post_once-Rejects (bad_request e) h = absurd h
  post_once-Rejects (no_response e) h = absurd h
  post_once-Rejects (response code status reply) h =
      let snippet = take 512 reply in
      let (e, judged) =
        Rejects-permanent code status reply (judge trim_space code status snippet)
          (judge-Classified trim_space code status reply snippet) h in
      (e, ap (λ x. (request_of url token body ∷ [], x)) judged)

  MayRecover-transient :
      (code : ℕ) (status reply : Str) (o : Option PostError)
      → Classified (response code status reply) o
      → MayRecover (response code status reply)
      → (e : Str) × (o ≡ some (transient e))
  MayRecover-transient code status reply none c h = absurd (ground arith)
  MayRecover-transient code status reply (some (permanent e)) c h = absurd (c.0 h)
  MayRecover-transient code status reply (some (transient e)) c h = (e, refl)

  pub post_once-MayRecover :
      (a : Answer)
      → MayRecover a
      → (e : Str) × (post_once trim_space url token body a
          ≡ (request_of url token body ∷ [], some (transient e)))
  unfolding post_once
  post_once-MayRecover (bad_request e) h = absurd h
  post_once-MayRecover (no_response e) h = (_, refl)
  post_once-MayRecover (response code status reply) h =
      let snippet = take 512 reply in
      let (e, judged) =
        MayRecover-transient code status reply (judge trim_space code status snippet)
          (judge-Classified trim_space code status reply snippet) h in
      (e, ap (λ x. (request_of url token body ∷ [], x)) judged)

  permanent-Ended :
      (o : Option Str) (attempt : ℕ) (posted : List Request × Option PostError)
      (rest : Option Str → List Request × Option Str) (q : Request) (e : Str)
      → o ≡ none
      → posted ≡ (q ∷ [], some (permanent e))
      → Ended attempt 0
          (unless o (posted.0 ++ (after attempt posted.1 rest).0, (after attempt posted.1 rest).1))
  permanent-Ended o attempt posted rest q e h k =
      let same : attempt + 0 ≡ attempt = omega arith in rw (h, k, same) (refl, (e, refl))

  transient-Ended :
      (o : Option Str) (attempt k : ℕ) (posted : List Request × Option PostError)
      (rest : Option Str → List Request × Option Str) (q : Request) (e : Str)
      → o ≡ none
      → posted ≡ (q ∷ [], some (transient e))
      → ((last : Option Str) → Ended (attempt + 1) k (rest last))
      → Ended attempt
          (suc k)
          (unless o (posted.0 ++ (after attempt posted.1 rest).0, (after attempt posted.1 rest).1))
  transient-Ended o attempt k posted rest q e h p l =
      let same : attempt + suc k ≡ attempt + 1 + k = omega arith in
      let ended = l (some (attempted attempt (transient e))) in
      rw (h, p, same) (omega (arith, ended.0), ended.1)

  push_rounds-GivesUp :
      (waits : List ℕ) (attempt k : ℕ) (last : Option Str)
      → GivesUp waits attempt k
      → Ended attempt k (push_rounds trim_space url token body rounds waits attempt last)
  unfolding push_rounds
  push_rounds-GivesUp [] attempt k last h = absurd h
  push_rounds-GivesUp (wait ∷ waits) attempt zero last (clear, rejected) =
      let (e, posted) = post_once-Rejects (rounds attempt).answer rejected in
      permanent-Ended (interrupted wait (rounds attempt)) attempt
        (post_once trim_space url token body (rounds attempt).answer)
        (push_rounds trim_space url token body rounds waits (attempt + 1))
        (request_of url token body) e clear posted
  push_rounds-GivesUp (wait ∷ waits) attempt (suc k) last (clear, recovers, later) =
      let (e, posted) = post_once-MayRecover (rounds attempt).answer recovers in
      transient-Ended (interrupted wait (rounds attempt)) attempt k
        (post_once trim_space url token body (rounds attempt).answer)
        (push_rounds trim_space url token body rounds waits (attempt + 1))
        (request_of url token body) e clear posted
        (λ last'. push_rounds-GivesUp waits (attempt + 1) k last' later)

  -- Where an attempt is answered with a 4xx status, after attempts that could be retried, nothing
  -- is sent after it: the requests are as many as the attempts, and the error is that attempt's.
  pub push_results-GivesUp :
      (k : ℕ)
      → GivesUp backoff 0 k
      → let went = push_results trim_space url token (ok body) rounds in
        (length went.0 ≡ k + 1) × ((e : Str) × (went.1 ≡ some (attempted k (permanent e))))
  unfolding push_results
  push_results-GivesUp k h =
      let same : 0 + k ≡ k = omega arith in rw same at (push_rounds-GivesUp backoff 0 k none h)
