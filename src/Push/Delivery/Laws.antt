-- ===== src/Push/Delivery/Laws.antt =====
-- When `pushResults` of cmd/nodecheck/push.go succeeds.
use tunnel_ops.Base.{
  ℕ, ◌+◌, ◌<◌, ◌≤◌, Str, List, [], ◌∷◌, ◌++◌, Option, none, some, ◌≡◌, refl, ◌⊎◌, inl, inr, ◌↔◌,
  arith, ok, Bool-cases, ◌&&◌, ltb, leb, take,
}
use tunnel_ops.Push.Delivery.{
  Request, PostError, permanent, transient, Answer, bad_request, no_response, response, Round,
  judge, post_once, attempted, interrupted, push_rounds, backoff, push_results, after, unless,
}

-- The server took the batch.
abbrev pub Accepts : Answer → Type 0
Accepts (response code status body) = (200 ≤ code) × (code < 300)
Accepts _ = ⊥

-- The server refused the batch for good.
abbrev pub Rejects : Answer → Type 0
Rejects (response code status body) = (400 ≤ code) × (code < 500)
Rejects _ = ⊥

-- Another attempt may succeed: no response, or a status that is neither 2xx nor 4xx.
abbrev pub MayRecover : Answer → Type 0
MayRecover (bad_request e) = ⊥
MayRecover (no_response e) = Unit
MayRecover (response code status body) =
    ((code < 200) ⊎ (300 ≤ code)) × ((code < 400) ⊎ (500 ≤ code))

-- How the error of a POST comes about, whatever its text.
abbrev pub Classified : Answer → Option PostError → Type 0
Classified a none = Accepts a
Classified a (some (permanent e)) = (MayRecover a → ⊥) × (Accepts a → ⊥)
Classified a (some (transient e)) = MayRecover a × (Accepts a → ⊥)

unless-none_iff :
    (o : Option Str) (went : List Request × Option Str)
    → ((unless o went).1 ≡ none) ↔ ((o ≡ none) × (went.1 ≡ none))
unless-none_iff none went = (λ h. (refl, h), λ h. h.1)
unless-none_iff (some e) went = (λ h. cc, λ h. cc)

module _ (trim_space : Str → Str) where
  pub judge-Classified :
      (code : ℕ) (status body snippet : Str)
      → Classified (response code status body) (judge trim_space code status snippet)
  unfolding judge
  judge-Classified code status body snippet = elim (Bool-cases (leb 200 code && ltb code 300)) [
    | inl e ↦ rw e (ground arith)
    | inr e ↦ elim (Bool-cases (leb 400 code && ltb code 500)) [
      | inl e' ↦ rw (e, e') (λ h. ground arith, λ h. ground arith)
      | inr e' ↦ rw (e, e') (ground arith, λ h. ground arith)
    ]
  ]

  post_once-Classified :
      (url token body : Str) (a : Answer) → Classified a (post_once trim_space url token body a).1
  unfolding post_once
  post_once-Classified url token body (bad_request e) = (λ h. h, λ h. h)
  post_once-Classified url token body (no_response e) = (tt, λ h. h)
  post_once-Classified url token body (response code status reply) =
      judge-Classified code status reply (take 512 reply)

  module _ (url token body : Str) (rounds : ℕ → Round) where
    -- The wait before a round is not cut short by the context.
    abbrev pub Waits : ℕ → ℕ → Type 0
    Waits wait attempt = interrupted wait (rounds attempt) ≡ none

    -- Some round is accepted, and all rounds before it could be retried.
    abbrev pub Delivers : List ℕ → ℕ → Type 0
    Delivers [] attempt = ⊥
    Delivers (wait ∷ waits) attempt =
        Waits wait attempt
        × (Accepts (rounds attempt).answer
            ⊎ (MayRecover (rounds attempt).answer × Delivers waits (attempt + 1)))

    after-none_iff :
        (waits : List ℕ) (attempt : ℕ) (a : Answer) (o : Option PostError)
        (rest : Option Str → List Request × Option Str)
        → Classified a o
        → ((e : Str) → ((rest (some e)).1 ≡ none) ↔ Delivers waits (attempt + 1))
        → ((after attempt o rest).1 ≡ none)
          ↔ (Accepts a ⊎ (MayRecover a × Delivers waits (attempt + 1)))
    after-none_iff waits attempt a none rest c h = (λ e. inl c, λ e. refl)
    after-none_iff waits attempt a (some (permanent e)) rest c h = (λ e. cc, back)
      where
        back :
            (Accepts a ⊎ (MayRecover a × Delivers waits (attempt + 1)))
            → some (attempted attempt (permanent e)) ≡ none
        back (inl x) = absurd (c.1 x)
        back (inr x) = absurd (c.0 x.0)
    after-none_iff waits attempt a (some (transient e)) rest c h =
        (λ k. inr (c.0, (h (attempted attempt (transient e))).0 k), back)
      where
        back :
            (Accepts a ⊎ (MayRecover a × Delivers waits (attempt + 1)))
            → (rest (some (attempted attempt (transient e)))).1 ≡ none
        back (inl x) = absurd (c.1 x)
        back (inr x) = (h (attempted attempt (transient e))).1 x.1

    push_rounds-none_iff :
        (waits : List ℕ) (attempt : ℕ) (e : Str)
        → ((push_rounds trim_space url token body rounds waits attempt (some e)).1 ≡ none)
          ↔ Delivers waits attempt
    unfolding push_rounds
    push_rounds-none_iff [] attempt e = (λ h. cc, λ h. absurd h)
    push_rounds-none_iff (wait ∷ waits) attempt e =
        let went = post_once trim_space url token body (rounds attempt).answer in
        let rest = push_rounds trim_space url token body rounds waits (attempt + 1) in
        let later =
          after-none_iff waits attempt (rounds attempt).answer went.1 rest
            (post_once-Classified url token body (rounds attempt).answer)
            (push_rounds-none_iff waits (attempt + 1)) in
        let guard =
          unless-none_iff (interrupted wait (rounds attempt))
            (went.0 ++ (after attempt went.1 rest).0, (after attempt went.1 rest).1) in
        (λ h. ((guard.0 h).0, later.0 (guard.0 h).1), λ h. guard.1 (h.0, later.1 h.1))

    -- The push of a payload that could be encoded succeeds exactly when one of the three attempts
    -- is answered with a 2xx status, the context did not end during a wait before it, and every
    -- attempt before that one had no response or a status other than 2xx and 4xx.
    pub push_results-none_iff :
        ((push_results trim_space url token (ok body) rounds).1 ≡ none) ↔ Delivers backoff 0
    unfolding push_results push_rounds
    push_results-none_iff = push_rounds-none_iff backoff 0 []
