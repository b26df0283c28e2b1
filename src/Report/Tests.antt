-- ===== src/Report/Tests.antt =====
-- The Prometheus text's theorems at names that need escaping, after main_test.go.
use tunnel_ops.Base.{ℕ, Str, codes, true, false, List, [], ◌∷◌, ◌++◌, none, some, ◌≡◌, refl}
use tunnel_ops.Samples.{nanos, target_of}
use tunnel_ops.Target.{Floating, Result, new_result}
use tunnel_ops.Report.{escape_label, double_quote, write_prom}
use tunnel_ops.Report.Lines.{newlines, newlines-write_prom}
use tunnel_ops.Report.Escape.{read_value, read_value-escape_label}

-- a"b\ and a newline
abbrev awkward : Str
awkward = b'a' ∷ 34 ∷ b'b' ∷ 92 ∷ 10 ∷ []

read_value-escape_label_example :
    read_value (escape_label awkward ++ double_quote ∷ codes ",region")
    ≡ some (awkward, codes ",region")
read_value-escape_label_example = read_value-escape_label awkward (codes ",region")

-- Numbers that are all written alike.
abbrev rounded : Floating
rounded = record nanos { fixed4 = λ x. codes "0.0240" }

abbrev result : Result ℕ
result = record (new_result (target_of "edge")) {
  tcp_ok = some true;
  tls_ok = some false;
  tcp_time = some 24;
  tls_time = some 0;
  cert_match = some false;
}

abbrev results : List (Result ℕ)
results = result ∷ record result { no_liveness_claim = true; tls_time = none } ∷ []

report_lines : newlines (write_prom rounded results) ≡ 17
unfolding new_result
report_lines = newlines-write_prom rounded (λ x. refl) results
