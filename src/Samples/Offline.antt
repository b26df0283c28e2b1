-- ===== src/Samples/Offline.antt =====
-- A process without valid keys and decoders, for the tests of targets that need none.
use tunnel_ops.Base.{ℕ, codes, true, false, none, some, [], ◌∷◌, ◌++◌, ok, err}
use tunnel_ops.Samples.{nanos}
use tunnel_ops.WireGuard.{Setting}
use tunnel_ops.WireGuard.Primitives.{Crypto}
use tunnel_ops.Tls.{dial_error}
use tunnel_ops.Udp.Exchange.{Env, Attempt, read_error}
use tunnel_ops.Prober.{Runtime, ProbeEnv}

-- Nothing of the cryptography is used here, and none of its keys is valid.
abbrev pub keyless : Crypto
keyless = record {
  PublicKey = ℕ;
  PrivateKey = ℕ;
  new_public_key = λ s. err (codes "invalid");
  new_private_key = λ s. err (codes "invalid");
  public_key = λ k. k;
  key_bytes = λ k. k ∷ [];
  ecdh = λ a b. err (codes "low order point");
  blake2s_256 = λ s. s;
  blake2s_128 = λ k. err (codes "invalid");
  hmac_blake2s = λ k s. s;
  seal_with = λ k. err (codes "invalid");
  open_with = λ k. err (codes "invalid");
}

abbrev pub setting : Setting
setting = record {
  crypto = keyless;
  decode = λ raw. err (codes "unknown field");
  base64 = λ s. err (codes "illegal base64");
  private_key_env = [];
}

abbrev pub runtime : Runtime
runtime = record {
  floating = nanos;
  quote = λ s. codes "\"" ++ s ++ codes "\"";
  decode_udp = λ raw. err (codes "unknown field");
  decode_hex = λ s. ok s;
  setting = setting;
}

-- No connection comes about.
abbrev no_answer : ℕ → Attempt
no_answer i = record {
  write_error = none;
  now = 0;
  deadline_error = none;
  answer = read_error (codes "i/o timeout") true;
  cancelled = false;
  after = 0;
}

abbrev network : Env
network = record {
  start = 0;
  dial_error = some (codes "no route to host");
  dialled = 1;
  before_write = 2;
  write_deadline_error = none;
  write_error = none;
  set_up = 3;
  waiting_from = 4;
  ctx_deadline = none;
  restarted = 4;
  attempt = no_answer;
  finished = 5;
}

abbrev pub env : ProbeEnv setting
env = record {
  tls_env = record {
    split_host = none;
    start = 0;
    tcp_error = some (codes "connection refused");
    dialled = 20;
    restarted = 21;
    tls_dial = dial_error (codes "EOF");
    shaken = 60;
  };
  udp_env = network;
  wg_env = record {
    generated = err (codes "no entropy");
    random = record { ephemeral = err (codes "no entropy"); index = err (codes "no entropy") };
    now = 0;
    network = network;
  };
}
