-- ===== src/Store/Reading.antt =====
-- probestore/app/routers/nodes.py and health.py: what is answered about the nodes. The statements of
-- the session are a parameter.
pub mod Queries
pub mod Latest
pub mod Metrics
pub mod Probes
pub mod Pushed
pub mod Shown
mod Tests
use tunnel_ops.Base.{
  ℕ, leb, Str, Bool, true, false, ◌&&◌, List, map, Option, none, some, if◌then◌else◌,
}
use tunnel_ops.Base.Int.{ℤ, pos, negsuc}
use tunnel_ops.Store.{FailedPhase, ProbeResult, Database}

-- The row of a node, less the time of its creation.
pub record Node : Type 0 where
  pub id : ℕ
  pub name : Str
  pub addr : Str
  pub sni : Str
  pub provider : Option Str

pub record NodeStatus (Float64 : Type 0) : Type 0 where
  pub name : Str
  pub addr : Str
  pub sni : Str
  pub provider : Option Str
  pub ts : ℕ
  pub up : Bool
  pub tcp_ok : Bool
  pub tls_ok : Bool
  pub latency_ms : Option Float64
  pub error : Option Str
  pub failed_phase : Option FailedPhase

pub record ResultOut (Float64 : Type 0) : Type 0 where
  pub ts : ℕ
  pub tcp_ok : Bool
  pub tls_ok : Bool
  pub latency_ms : Option Float64
  pub error : Option Str
  pub failed_phase : Option FailedPhase

pub record Health : Type 0 where
  pub ok : Bool
  pub database : Bool

-- What the statements select. `latest_per_node` is `latest_per_node_stmt`, `node_named` selects one
-- node of a name, and `newest_first` the results of a node, from a time on, up to a number of them.
-- `responds` tells whether "SELECT 1" succeeds.
pub record Selects {Float64 : Type 0} (db : Database Float64) : Type 0 where
  pub latest_per_node : Database.State db → List (Node × ProbeResult Float64)
  pub node_named : Str → Database.State db → Option Node
  pub newest_first : ℕ → Option ℕ → ℕ → Database.State db → List (ProbeResult Float64)
  pub responds : Database.State db → Bool

-- The bounds of the `limit` parameter.
abbrev pub limit_of : ℤ → Option ℕ
limit_of (pos n) = if leb 1 n && leb n 5000 then some n else none
limit_of (negsuc n) = none

module _ {Float64 : Type 0} where
  unfoldable pub node_status : Node × ProbeResult Float64 → NodeStatus Float64
  node_status (n, r) = record {
    name = n.name;
    addr = n.addr;
    sni = n.sni;
    provider = n.provider;
    ts = r.ts;
    up = r.tcp_ok && r.tls_ok;
    tcp_ok = r.tcp_ok;
    tls_ok = r.tls_ok;
    latency_ms = r.latency_ms;
    error = r.error;
    failed_phase = r.failed_phase;
  }

  abbrev pub result_out : ProbeResult Float64 → ResultOut Float64
  result_out r = record {
    ts = r.ts;
    tcp_ok = r.tcp_ok;
    tls_ok = r.tls_ok;
    latency_ms = r.latency_ms;
    error = r.error;
    failed_phase = r.failed_phase;
  }

-- A status, and the results of a success.
pub record History (Float64 : Type 0) : Type 0 where
  pub status : ℕ
  pub results : Option (List (ResultOut Float64))

module _ {Float64 : Type 0} (db : Database Float64) (q : Selects db) where
  open db use {State}
  open q use {latest_per_node, node_named, newest_first, responds}

  unfoldable pub list_nodes : State → List (NodeStatus Float64)
  unfolding node_status
  list_nodes s = map node_status (latest_per_node s)

  history_of : Option ℕ → ℕ → State → Option Node → History Float64
  history_of since limit s none = record { status = 404; results = none }
  history_of since limit s (some node) = record {
    status = 200;
    results = some (map result_out (newest_first node.id since limit s));
  }

  limited : Str → Option ℕ → State → Option ℕ → History Float64
  unfolding history_of
  limited name since s none = record { status = 422; results = none }
  limited name since s (some limit) = history_of since limit s (node_named name s)

  unfoldable pub node_history : Str → Option ℕ → ℤ → State → History Float64
  unfolding limited
  node_history name since limit s = limited name since s (limit_of limit)

  unfoldable pub healthz : State → Health
  healthz s =
      if responds s
      then record { ok = true; database = true }
      else record { ok = false; database = false }
