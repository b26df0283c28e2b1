-- ===== src/Push/Delivery.antt =====
-- cmd/nodecheck/push.go: `postOnce` and the retries of `pushResults`. What the server answers and
-- whether the context ends during a wait are arguments; the log holds the requests sent.
pub mod Attempts
pub mod Laws
pub mod Requests
use tunnel_ops.Base.{
  ℕ, ◌+◌, ◌*◌, ◌&&◌, ltb, leb, Str, codes, decimal, is_empty, List, [], ◌∷◌, ◌++◌, Option, none,
  some, if◌then◌else◌, Except, ok, err, take,
}

pub record Request : Type 0 where
  pub url : Str
  pub body : Str
  pub headers : List (Str × Str)

-- An error of `postOnce`: a `permanentError`, or any other.
pub data PostError : Type 0 where
  permanent : Str → PostError
  transient : Str → PostError

-- How one POST goes: the request cannot be built, there is no response, or there is one.
pub data Answer : Type 0 where
  bad_request : Str → Answer
  no_response : Str → Answer
  response : (status_code : ℕ) (status : Str) (body : Str) → Answer

abbrev pub message : PostError → Str
message (permanent e) = e
message (transient e) = e

-- The header fields that are set on a request.
abbrev headers_of : Str → List (Str × Str)
headers_of token =
    (codes "Content-Type", codes "application/json")
    ∷ (if is_empty token then [] else (codes "Authorization", codes "Bearer " ++ token) ∷ [])

abbrev pub request_of : Str → Str → Str → Request
request_of url token body = record { url = url; body = body; headers = headers_of token }

-- One round of the loop: the context's error where it ends during the wait, and the answer.
pub record Round : Type 0 where
  pub cancelled : Option Str
  pub answer : Answer

-- "attempt %d: %w"
abbrev pub attempted : ℕ → PostError → Str
attempted attempt e = codes "attempt " ++ decimal (attempt + 1) ++ codes ": " ++ message e

-- `if wait > 0 { select … }`: the error that ends the loop, if any.
abbrev pub interrupted : ℕ → Round → Option Str
interrupted wait round = if ltb 0 wait then round.cancelled else none

-- The error of an interruption ends the loop before anything is sent.
abbrev pub unless : Option Str → List Request × Option Str → List Request × Option Str
unless none went = went
unless (some e) went = ([], some e)

-- What follows a POST: the error that is returned at once, or else the loop's other rounds.
abbrev pub after :
    ℕ → Option PostError → (Option Str → List Request × Option Str) → List Request × Option Str
after attempt none rest = ([], none)
after attempt (some (permanent e)) rest = ([], some (attempted attempt (permanent e)))
after attempt (some (transient e)) rest = rest (some (attempted attempt (transient e)))

abbrev pub second : ℕ
second = 1000000000

abbrev pub backoff : List ℕ
backoff = 0 ∷ second ∷ 3 * second ∷ []

-- `bytes.TrimSpace` is a parameter.
module _ (trim_space : Str → Str) where
  -- The `switch` on the status code.
  unfoldable pub judge : ℕ → Str → Str → Option PostError
  judge code status snippet =
      if leb 200 code && ltb code 300
      then none
      else if leb 400 code && ltb code 500
      then some (
          permanent
            (codes "server rejected the batch: " ++ status ++ codes ": " ++ trim_space snippet))
      else some (transient (codes "server error: " ++ status ++ codes ": " ++ trim_space snippet))

  -- `postOnce`: the requests that are sent, none or one, and the error.
  unfoldable pub post_once : Str → Str → Str → Answer → List Request × Option PostError
  unfolding judge
  post_once url token body (bad_request e) =
      ([], some (permanent (codes "building request: " ++ e)))
  post_once url token body (no_response e) = (
    request_of url token body ∷ [],
    some (transient (codes "posting to " ++ url ++ codes ": " ++ e)),
  )
  post_once url token body (response code status reply) =
      (request_of url token body ∷ [], judge code status (take 512 reply))

  -- The loop over the waits, with the number of the attempt and `lastErr`.
  unfoldable pub push_rounds :
      Str → Str → Str → (ℕ → Round) → List ℕ → ℕ → Option Str → List Request × Option Str
  unfolding post_once
  push_rounds url token body rounds [] attempt last = ([], last)
  push_rounds url token body rounds (wait ∷ waits) attempt last =
      let rest = push_rounds url token body rounds waits (attempt + 1) in
      let posted = post_once url token body (rounds attempt).answer in
      let next = after attempt posted.1 rest in
      unless (interrupted wait (rounds attempt)) (posted.0 ++ next.0, next.1)

  -- `pushResults`, given what json.Marshal makes of the payload: the requests, and the error.
  unfoldable pub push_results : Str → Str → Except Str → (ℕ → Round) → List Request × Option Str
  unfolding push_rounds
  push_results url token (err e) rounds = ([], some (codes "encoding payload: " ++ e))
  push_results url token (ok body) rounds = push_rounds url token body rounds backoff 0 none
