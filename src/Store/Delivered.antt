-- ===== src/Store/Delivered.antt =====
-- A push of cmd/nodecheck/push.go that succeeds, at the store that its requests reach
-- (probestore/app/routers/ingest.py).
use tunnel_ops.Base.{
  ℕ, zero, suc, ◌+◌, Str, List, [], ◌∷◌, All, length, Option, none, ok, ◌≡◌, refl, sym, ◌∙◌, ◌⊎◌,
  inl, inr, arith,
}
use tunnel_ops.Push.Delivery.{Request, Answer, response, Round, request_of, push_results}
use tunnel_ops.Push.Delivery.Laws.{Accepts}
use tunnel_ops.Push.Delivery.Attempts.{push_results-Attempts}
use tunnel_ops.Push.Delivery.Requests.{push_results-Repeats}
use tunnel_ops.Store.{committed, Body, Database, Reply, post_run}
use tunnel_ops.Store.Documents.{Documented}
use tunnel_ops.Store.Statuses.{post_run-created_iff}
use tunnel_ops.Store.Replays.{Settles, post_run-Settles}

module _ {Float64 : Type 0} (db : Database Float64) (doc : Documented db) (api_token : Str)
    (credentials_of : List (Str × Str) → Option Str) (decode : Str → Body Float64) where
  open db use {State}

  -- The reply to a request that is carried out, and the database behind it.
  abbrev pub replied : Request → State → Reply × State
  replied q s = post_run db committed api_token (credentials_of q.headers) (decode q.body) s

  -- How a request fares, from the answer that the client has: it is lost on its way, or the
  -- database rolls it back, or its reply is lost; or the answer is the store's.
  pub data Fares (q : Request) (s : State) : Answer → State → Type 0 where
    missed : {a : Answer} → (Accepts a → ⊥) → Fares q s a s
    unheard : {a : Answer} → (Accepts a → ⊥) → Fares q s a (replied q s).1
    heard :
        (status body : Str)
        → Fares q s (response (replied q s).0.status status body) (replied q s).1

  -- The database is as it was, or as one request makes it.
  Once : Request → State → State → Type 0
  Once q s s' = (s' ≡ s) ⊎ (s' ≡ (replied q s).1)

  settled : (q : Request) (s : State) → Settles db doc (replied q) s
  settled q s = post_run-Settles db doc api_token (credentials_of q.headers) (decode q.body) s

  -- The request has the same reply's status and the same effect, whether it came before or not.
  replied-Once :
      (q : Request) (s m : State)
      → Once q s m
      → ((replied q m).1 ≡ (replied q s).1) × ((replied q m).0.status ≡ (replied q s).0.status)
  unfolding Once
  replied-Once q s m (inl e) = rw e (refl, refl)
  replied-Once q s m (inr e) = let same = settled q s in rw e (same.0, same.1)

  Fares-Once :
      (q : Request) (s m s' : State) (a : Answer) → Once q s m → Fares q m a s' → Once q s s'
  unfolding Once
  Fares-Once q s m _ a h (missed unaccepted) = h
  Fares-Once q s m _ a h (unheard unaccepted) = inr (replied-Once q s m h).0
  Fares-Once q s m _ _ h (heard status body) = inr (replied-Once q s m h).0

  replied-created :
      (q : Request) (s : State) (status body : Str)
      → Accepts (response (replied q s).0.status status body)
      → (replied q s).0.status ≡ 201
  replied-created q s status body h =
      let (created, failed, kept) =
        post_run-created_iff db doc committed api_token (credentials_of q.headers) (decode q.body)
          s in
      elim kept [ inl e ↦ e | inr e ↦ absurd (omega (arith, h, e)) ]

  -- The request is accepted, and the database is as the store makes it of that request alone.
  abbrev pub Delivered : Request → State → State → Type 0
  Delivered q s s' = ((replied q s).0.status ≡ 201) × (s' ≡ (replied q s).1)

  Fares-Delivered :
      (q : Request) (s m s' : State) (a : Answer)
      → Once q s m
      → Fares q m a s'
      → Accepts a
      → Delivered q s s'
  Fares-Delivered q s m _ a h (missed unaccepted) taken = absurd (unaccepted taken)
  Fares-Delivered q s m _ a h (unheard unaccepted) taken = absurd (unaccepted taken)
  Fares-Delivered q s m _ _ h (heard status body) taken =
      let same = replied-Once q s m h in
      (sym same.1 ∙ replied-created q m status body taken, same.0)

  -- The database before each of some requests and behind the last one, from a number of an attempt.
  abbrev pub Course : (ℕ → Round) → (ℕ → State) → ℕ → List Request → Type 0
  Course rounds states attempt [] = Unit
  Course rounds states attempt (q ∷ qs) =
      Fares q (states attempt) (rounds attempt).answer (states (attempt + 1))
      × Course rounds states (attempt + 1) qs

  -- Behind equal requests of which the last one is accepted.
  Course-Delivered :
      (rounds : ℕ → Round) (states : ℕ → State) (s : State) (q : Request) (attempt k : ℕ)
      (log : List Request)
      → All (λ p. p ≡ q) log
      → length log ≡ suc k
      → Once q s (states attempt)
      → Course rounds states attempt log
      → Accepts (rounds (attempt + k)).answer
      → Delivered q s (states (attempt + length log))
  Course-Delivered rounds states s q attempt k [] same count once course taken =
      absurd (omega (arith, count))
  Course-Delivered rounds states s q attempt zero (p ∷ []) same count once (fares, done) taken =
      let here : attempt + 0 ≡ attempt = omega arith in
      Fares-Delivered q s (states attempt) (states (attempt + 1)) (rounds attempt).answer once
        (rw same.0 at fares) (rw here at taken)
  Course-Delivered rounds states s q attempt zero (p ∷ p' ∷ log) same count once course taken =
      absurd (omega (arith, count))
  Course-Delivered rounds states s q attempt (suc k) (p ∷ log) same count once (fares, later)
        taken =
      let on : attempt + suc k ≡ attempt + 1 + k = omega arith in
      let behind : attempt + suc (length log) ≡ attempt + 1 + length log = omega arith in
      rw behind (
        Course-Delivered rounds states s q (attempt + 1) k log same.1 (omega (arith, count))
          (Fares-Once q s (states attempt) (states (attempt + 1)) (rounds attempt).answer once
            (rw same.0 at fares))
          later (rw on at taken))

  module _ (trim_space : Str → Str) (url token body : Str) (rounds : ℕ → Round) where
    -- A push that succeeds has delivered its batch exactly once, however many of its requests or
    -- of their replies were lost, or of its transactions rolled back: the store accepts the request, and the database behind the last
    -- attempt is as the store makes it of that one request. This is where no other request comes in
    -- between.
    pub push_results-Delivered :
        (states : ℕ → State)
        → Course rounds states 0 (push_results trim_space url token (ok body) rounds).0
        → (push_results trim_space url token (ok body) rounds).1 ≡ none
        → Delivered
            (request_of url token body)
            (states 0)
            (states (length (push_results trim_space url token (ok body) rounds).0))
    unfolding Once
    push_results-Delivered states course succeeded =
        let log = (push_results trim_space url token (ok body) rounds).0 in
        let (k, count, taken, others) =
          push_results-Attempts trim_space url token body rounds succeeded in
        let same : 0 + length log ≡ length log = omega arith in
        rw same at (
          Course-Delivered rounds states (states 0) (request_of url token body) 0 k log
            (push_results-Repeats trim_space url token body rounds).0 count (inl refl) course taken)
