-- ===== src/Samples.antt =====
-- Data that the tests share: numbers of nanoseconds in place of floating-point seconds, and targets.
pub mod Batch
pub mod Edge
pub mod Offline
pub mod Sorting
use Prim.Native.String.{String}
use tunnel_ops.Base.{ℕ, ◌*◌, codes, [], decimal}
use tunnel_ops.Target.{Floating, Target}

abbrev pub nanos : Floating
nanos = record {
  Float64 = ℕ;
  zero_float = 0;
  seconds = λ d. d;
  times_1000 = λ x. x * 1000;
  fixed4 = decimal;
}

abbrev pub target_of : String → Target
target_of name = record {
  name = codes name;
  addr = codes "192.0.2.1:443";
  sni = [];
  region = codes "nl";
  provider = [];
  proto = [];
  params = [];
}
