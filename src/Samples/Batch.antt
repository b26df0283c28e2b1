-- ===== src/Samples/Batch.antt =====
-- A run of two results, after probestore/tests/test_ingest.py, and a database without rows.
use tunnel_ops.Base.{ℕ, codes, true, false, [], ◌∷◌, none, some}
use tunnel_ops.Store.{NodeRef, FailedPhase, ResultIn, RunIn, row}
use tunnel_ops.Store.Tables.{Tables}

abbrev pub node : NodeRef
node = record {
  name = codes "de-01";
  addr = codes "192.0.2.1:443";
  sni = codes "example.com";
  provider = some (codes "hetzner");
}

abbrev pub healthy : ResultIn ℕ
healthy = record {
  node = node;
  ts = 9;
  tcp_ok = true;
  tls_ok = true;
  latency_ms = some 42;
  error = none;
  failed_phase = none;
}

abbrev pub masked : ResultIn ℕ
masked = record healthy {
  node = record node { name = codes "nl-01"; addr = codes "192.0.2.2:443" };
  tls_ok = false;
  latency_ms = none;
  error = some (codes "tls: EOF");
  failed_phase = some FailedPhase.tls;
}

abbrev pub run : RunIn ℕ
run = record {
  run_id = codes "a";
  source = codes "nodecheck@host";
  started_at = 1;
  results = healthy ∷ masked ∷ [];
}

abbrev pub empty : Tables ℕ
empty = record { runs = []; nodes = []; results = [] }

-- The database behind the run.
abbrev pub behind : Tables ℕ
behind = record {
  runs = (codes "a", 0) ∷ [];
  nodes = masked.node ∷ node ∷ [];
  results = row 0 0 healthy ∷ row 1 0 masked ∷ [];
}
