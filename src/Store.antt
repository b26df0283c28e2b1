-- ===== src/Store.antt =====
-- probestore/app: the schemas (schemas.py), the token (security.py) and `ingest_run` with
-- `_resolve_nodes` (routers/ingest.py). The database is a parameter, and so is the decoder of the
-- body. A text is a list of code points; an identifier of a run is its text.
pub mod Documents
pub mod Acceptance
pub mod Created
pub mod Delivered
pub mod Dicts
pub mod EmptyBatches
pub mod Fits
pub mod Laws
pub mod Ledger
pub mod Races
pub mod Reading
pub mod Replays
pub mod Schema
pub mod Statuses
pub mod Tables
mod Tests
use tunnel_ops.Base.{
  ℕ, Str, str_eq, ltb, leb, Bool, true, false, ◌&&◌, List, [], ◌∷◌, map, length, Option, none, some,
  if◌then◌else◌,
}

pub record NodeRef : Type 0 where
  pub name : Str
  pub addr : Str
  pub sni : Str
  pub provider : Option Str

pub data FailedPhase : Type 0 where
  tcp tls : FailedPhase

pub record ResultIn (Float64 : Type 0) : Type 0 where
  pub node : NodeRef
  pub ts : ℕ
  pub tcp_ok : Bool
  pub tls_ok : Bool
  pub latency_ms : Option Float64
  pub error : Option Str
  pub failed_phase : Option FailedPhase

pub record RunIn (Float64 : Type 0) : Type 0 where
  pub run_id : Str
  pub source : Str
  pub started_at : ℕ
  pub results : List (ResultIn Float64)

-- The body of a request. FastAPI answers by itself, and before the token is looked at, where the
-- bytes cannot be decoded or are no JSON; otherwise the schema makes a run of the JSON or refuses it.
pub data Body (Float64 : Type 0) : Type 0 where
  undecodable malformed : Body Float64
  json : Option (RunIn Float64) → Body Float64

pub record RunAccepted : Type 0 where
  pub run_id : Str
  pub stored_results : ℕ
  pub duplicate : Bool

-- `ProbeResult`, less its primary key.
pub record ProbeResult (Float64 : Type 0) : Type 0 where
  pub node_id : ℕ
  pub run_id : ℕ
  pub ts : ℕ
  pub tcp_ok : Bool
  pub tls_ok : Bool
  pub latency_ms : Option Float64
  pub error : Option Str
  pub failed_phase : Option FailedPhase

-- `(r.node.addr, r.node.sni)`
abbrev pub Key : Type 0
Key = Str × Str

abbrev pub key_eq : Key → Key → Bool
key_eq (addr, sni) (addr', sni') = str_eq addr addr' && str_eq sni sni'

abbrev pub key_of : NodeRef → Key
key_of n = (n.addr, n.sni)

-- `d[k] = v`, and `d.get(k)`: a dict keeps the order of the first assignments.
abbrev pub set_item {ℓ} : {V : Type ℓ} → Key → V → List (Key × V) → List (Key × V)
set_item k v [] = (k, v) ∷ []
set_item k v ((j, w) ∷ d) =
    let rest = set_item k v d in if key_eq j k then (j, v) ∷ d else (j, w) ∷ rest

abbrev pub get_item {ℓ} : {V : Type ℓ} → Key → List (Key × V) → Option V
get_item k [] = none
get_item k ((j, w) ∷ d) = if key_eq j k then some w else get_item k d

-- A dict comprehension over pairs, behind what the dict holds.
abbrev pub set_items {ℓ} : {V : Type ℓ} → List (Key × V) → List (Key × V) → List (Key × V)
set_items [] d = d
set_items ((k, v) ∷ pairs) d = set_items pairs (set_item k v d)

-- What the statements of the session do. `find_run` selects by the external identifier, and
-- `insert_run` adds a run and gives its primary key; `insert_nodes` does nothing on a conflict of
-- (addr, sni).
pub record Database (Float64 : Type 0) : Type 1 where
  pub State : Type 0
  pub find_run : Str → State → Option ℕ
  pub count_results : ℕ → State → ℕ
  pub insert_run : Str → Str → ℕ → State → ℕ × State
  pub insert_nodes : List NodeRef → State → State
  pub select_nodes : List Key → State → List (Key × ℕ)
  pub insert_results : List (ProbeResult Float64) → State → State

-- What becomes of the statements of a request. They are carried out and committed; or one of them or
-- the commit fails, and there is a rollback, as where PostgreSQL refuses a text with a NUL, ends a
-- deadlock or cannot be reached; or the commit takes effect, and its confirmation is lost.
pub data Transaction : Type 0 where
  committed rolled_back unconfirmed : Transaction

-- The `max_length` and `min_length` of the schemas.
abbrev pub within : ℕ → Str → Bool
within n s = leb (length s) n

abbrev within_or_none : ℕ → Option Str → Bool
within_or_none n none = true
within_or_none n (some s) = within n s

unfoldable pub valid_node : NodeRef → Bool
valid_node n =
    within 128 n.name && (within 255 n.addr && (within 255 n.sni && within_or_none 128 n.provider))

-- The answer to a request: the status, and the body of a success.
pub record Reply : Type 0 where
  pub status : ℕ
  pub accepted : Option RunAccepted

abbrev pub refusal : ℕ → Reply
refusal status = record { status = status; accepted = none }

abbrev pub run_accepted : Str → ℕ → Bool → RunAccepted
run_accepted run_id stored duplicate = record {
  run_id = run_id;
  stored_results = stored;
  duplicate = duplicate;
}

abbrev pub is_ascii : Str → Bool
is_ascii [] = true
is_ascii (c ∷ cs) = ltb c 128 && is_ascii cs

-- `secrets.compare_digest` of two texts; `none` is a TypeError, for a text that is not ASCII.
unfoldable pub compare_digest : Str → Str → Option Bool
compare_digest a b = if is_ascii a && is_ascii b then some (str_eq a b) else none

-- `require_token`, given the credentials of the header; `none` is an exception.
unfoldable pub token_ok : Str → Option Str → Option Bool
unfolding compare_digest
token_ok api_token none = some false
token_ok api_token (some credentials) = compare_digest credentials api_token

module _ {Float64 : Type 0} where
  abbrev pub valid_nodes : List (ResultIn Float64) → Bool
  valid_nodes [] = true
  valid_nodes (r ∷ rs) = valid_node r.node && valid_nodes rs

  abbrev non_empty : List (ResultIn Float64) → Bool
  non_empty [] = false
  non_empty (r ∷ rs) = true

  unfoldable pub valid_run : RunIn Float64 → Bool
  unfolding valid_node
  valid_run run = within 128 run.source && (non_empty run.results && valid_nodes run.results)

  abbrev pub node_pairs : List (ResultIn Float64) → List (Key × NodeRef)
  node_pairs rs = map (λ r. (key_of r.node, r.node)) rs

  abbrev pub row : ℕ → ℕ → ResultIn Float64 → ProbeResult Float64
  row node_id run_id r = record {
    node_id = node_id;
    run_id = run_id;
    ts = r.ts;
    tcp_ok = r.tcp_ok;
    tls_ok = r.tls_ok;
    latency_ms = r.latency_ms;
    error = r.error;
    failed_phase = r.failed_phase;
  }

module _ {Float64 : Type 0} (db : Database Float64) where
  open db use {
    State, find_run, count_results, insert_run, insert_nodes, select_nodes, insert_results,
  }

  -- `_resolve_nodes`: the dict of node ids, and the database behind the upsert.
  unfoldable pub resolve_nodes : List (ResultIn Float64) → State → List (Key × ℕ) × State
  resolve_nodes rs s =
      let seen = set_items (node_pairs rs) [] in
      let s' = insert_nodes (map (λ e. e.1) seen) s in
      (set_items (select_nodes (map (λ e. e.0) seen) s') [], s')

  infixl 5 ◌>>=◌
  abbrev pub ◌>>=◌ {ℓ κ} : {A : Type ℓ} {B : Type κ} → Option A → (A → Option B) → Option B
  none >>= f = none
  some a >>= f = f a

  -- The rows that are added; `none` is a KeyError.
  pub rows : List (Key × ℕ) → ℕ → List (ResultIn Float64) → Option (List (ProbeResult Float64))
  rows node_ids run_id [] = some []
  rows node_ids run_id (r ∷ rs) = do
    node_id ← get_item (key_of r.node) node_ids
    others ← rows node_ids run_id rs
    some (row node_id run_id r ∷ others)

  -- What `ingest_run` does for a run that is not there yet.
  new_run : RunIn Float64 → State → Option (RunAccepted × State)
  unfolding rows resolve_nodes
  new_run run s =
      let (id, s₁) = insert_run run.run_id run.source run.started_at s in
      let (node_ids, s₂) = resolve_nodes run.results s₁ in
      do
        stored ← rows node_ids id run.results
        some (run_accepted run.run_id (length run.results) false, insert_results stored s₂)

  found_run : RunIn Float64 → State → Option ℕ → Option (RunAccepted × State)
  unfolding new_run
  found_run run s (some id) = some (run_accepted run.run_id (count_results id s) true, s)
  found_run run s none = new_run run s

  -- `ingest_run`; `none` is an exception, after which the session is rolled back.
  unfoldable pub ingest_run : RunIn Float64 → State → Option (RunAccepted × State)
  unfolding found_run
  ingest_run run s = found_run run s (find_run run.run_id s)

  pub ingested : State → Option (RunAccepted × State) → Reply × State
  ingested s none = (refusal 500, s)
  ingested s (some (a, s')) = (record { status = 201; accepted = some a }, s')

  -- The reply by what becomes of the statements: an exception of the database is answered by 500.
  abbrev pub replied_by : Transaction → State → Option (RunAccepted × State) → Reply × State
  replied_by committed s o = ingested s o
  replied_by rolled_back s o = (refusal 500, s)
  replied_by unconfirmed s o = (refusal 500, (ingested s o).1)

  validated : Transaction → Option (RunIn Float64) → State → Reply × State
  unfolding ingested ingest_run valid_run
  validated carried none s = (refusal 422, s)
  validated carried (some run) s =
      if valid_run run then replied_by carried s (ingest_run run s) else (refusal 422, s)

  -- What follows the check of the token.
  authorized : Transaction → Option Bool → Option (RunIn Float64) → State → Reply × State
  unfolding validated
  authorized carried none run s = (refusal 500, s)
  authorized carried (some false) run s = (refusal 401, s)
  authorized carried (some true) run s = validated carried run s

  -- POST /v1/runs: the JSON of the body, the token, the schema, and the run. `carried` is what
  -- becomes of its statements in the database.
  unfoldable pub post_run : Transaction → Str → Option Str → Body Float64 → State → Reply × State
  unfolding token_ok authorized
  post_run carried api_token credentials undecodable s = (refusal 400, s)
  post_run carried api_token credentials malformed s = (refusal 422, s)
  post_run carried api_token credentials (json run) s =
      authorized carried (token_ok api_token credentials) run s
