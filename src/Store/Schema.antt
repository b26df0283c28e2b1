-- ===== src/Store/Schema.antt =====
-- How the schemas of probestore (probestore/app/schemas.py) read a document: a field without a
-- default has to be there, and each value has to be of the field's type. The values of other types
-- that Pydantic would convert are left out: no document here has them.
pub mod Contract
use mathlib.Core.Option
use tunnel_ops.Base.{
  ℕ, ◌/◌, Str, codes, str_eq, Bool, List, [], ◌∷◌, Option, none, some, if◌then◌else◌,
}
use tunnel_ops.Document.{
  Json, text, number, boolean, time, array, object, Elements, no_elements, element, member,
}
use tunnel_ops.Store.{NodeRef, FailedPhase, ResultIn, RunIn}

infixl 5 ◌>>=◌
abbrev ◌>>=◌ {ℓ κ} : {A : Type ℓ} {B : Type κ} → Option A → (A → Option B) → Option B
none >>= f = none
some a >>= f = f a

-- A `datetime` counts microseconds: Pydantic cuts off what an RFC 3339 text has beyond them. A time
-- of a document is in nanoseconds.
abbrev pub microseconds : ℕ → ℕ
microseconds t = t / 1000

-- `characters` decodes the bytes of a text, and `parse_uuid` reads an identifier. `default_id` is
-- what `default_factory` gives.
module _ {Float64 : Type 0} (characters : Str → Str) (parse_uuid : Str → Option Str)
    (default_id : Str) where
  -- A required field of each type.
  read_text : Option (Json Float64) → Option Str
  read_text (some (text s)) = some (characters s)
  read_text _ = none

  read_bool : Option (Json Float64) → Option Bool
  read_bool (some (boolean b)) = some b
  read_bool _ = none

  read_time : Option (Json Float64) → Option ℕ
  read_time (some (time t)) = some (microseconds t)
  read_time _ = none

  -- `str | None = None`, and the like.
  read_text_or_none : Option (Json Float64) → Option (Option Str)
  read_text_or_none none = some none
  read_text_or_none (some (text s)) = some (some (characters s))
  read_text_or_none (some _) = none

  read_number_or_none : Option (Json Float64) → Option (Option Float64)
  read_number_or_none none = some none
  read_number_or_none (some (number x)) = some (some x)
  read_number_or_none (some _) = none

  -- `Literal["tcp", "tls"] | None`
  read_phase_or_none : Option (Json Float64) → Option (Option FailedPhase)
  read_phase_or_none none = some none
  read_phase_or_none (some (text s)) =
      if str_eq s (codes "tcp")
      then some (some FailedPhase.tcp)
      else if str_eq s (codes "tls")
      then some (some FailedPhase.tls)
      else none
  read_phase_or_none (some _) = none

  read_id : Option (Json Float64) → Option Str
  read_id none = some default_id
  read_id (some (text s)) = parse_uuid s
  read_id (some _) = none

  read_node : Option (Json Float64) → Option NodeRef
  unfolding read_text read_text_or_none
  read_node (some (object fields)) = do
    name ← read_text (member (codes "name") fields)
    addr ← read_text (member (codes "addr") fields)
    sni ← read_text (member (codes "sni") fields)
    provider ← read_text_or_none (member (codes "provider") fields)
    some (record { name = name; addr = addr; sni = sni; provider = provider })
  read_node _ = none

  read_result : Json Float64 → Option (ResultIn Float64)
  unfolding read_node read_bool read_time read_number_or_none read_text_or_none read_phase_or_none
  read_result (object fields) = do
    node ← read_node (member (codes "node") fields)
    ts ← read_time (member (codes "ts") fields)
    tcp_ok ← read_bool (member (codes "tcp_ok") fields)
    tls_ok ← read_bool (member (codes "tls_ok") fields)
    latency_ms ← read_number_or_none (member (codes "latency_ms") fields)
    error ← read_text_or_none (member (codes "error") fields)
    failed_phase ← read_phase_or_none (member (codes "failed_phase") fields)
    some (record {
      node = node;
      ts = ts;
      tcp_ok = tcp_ok;
      tls_ok = tls_ok;
      latency_ms = latency_ms;
      error = error;
      failed_phase = failed_phase;
    })
  read_result _ = none

  read_elements : Elements Float64 → Option (List (ResultIn Float64))
  unfolding read_result
  read_elements no_elements = some []
  read_elements (element j rest) = do r ← read_result j; rs ← read_elements rest; some (r ∷ rs)

  read_results : Option (Json Float64) → Option (List (ResultIn Float64))
  unfolding read_elements
  read_results (some (array elements)) = read_elements elements
  read_results _ = none

  unfoldable pub read_run : Json Float64 → Option (RunIn Float64)
  unfolding read_id read_text read_time read_results
  read_run (object fields) = do
    run_id ← read_id (member (codes "run_id") fields)
    source ← read_text (member (codes "source") fields)
    started_at ← read_time (member (codes "started_at") fields)
    results ← read_results (member (codes "results") fields)
    some (record { run_id = run_id; source = source; started_at = started_at; results = results })
  read_run _ = none
