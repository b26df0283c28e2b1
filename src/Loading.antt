-- ===== src/Loading.antt =====
-- cmd/nodecheck/main.go: `loadTargets`. What reading the file gives, the JSON decoder, and the keys
-- that anonymous WireGuard identities would generate are arguments.
pub mod Laws
pub mod Ready
mod Tests
use tunnel_ops.Base.{
  ℕ, suc, Str, codes, decimal, Bool, true, false, List, [], ◌∷◌, ◌++◌, Option, none, some, Except,
  ok, err, ◌>>=◌, ◌>>◌, fail_if, wrap,
}
use tunnel_ops.Target.{Target}
use tunnel_ops.WireGuard.{Setting}
use tunnel_ops.WireGuard.Primitives.{Crypto}
use tunnel_ops.Prober.{kind, Registry, Runtime, prober_for, validate}

-- "%s: target %d (%s): "
abbrev pub at_target : Str → ℕ → Target → Str
at_target path i t = path ++ codes ": target " ++ decimal i ++ codes " (" ++ t.name ++ codes "): "

abbrev has_none {ℓ} : {A : Type ℓ} → List A → Bool
has_none [] = true
has_none (x ∷ xs) = false

-- `if err := …; err != nil { return … }` of an error's text.
abbrev pub refuse : Str → Option Str → Except (Unit {0})
refuse prefix none = ok tt
refuse prefix (some e) = err (prefix ++ e)

module _ (rt : Runtime) (unmarshal : Str → Except (List Target))
    (generated : ℕ → Except (Crypto.PrivateKey (Setting.crypto rt.setting))) where
  -- One round of the loop over the targets.
  check_target : Registry → Str → ℕ → Target → Except (Unit {0})
  check_target ps path i t = do
    p ← wrap (at_target path i t) (prober_for rt ps t)
    refuse (at_target path i t ++ kind p ++ codes ": ") (validate rt p t (generated i))

  check_targets : Registry → Str → ℕ → List Target → Except (Unit {0})
  unfolding check_target
  check_targets ps path i [] = ok tt
  check_targets ps path i (t ∷ ts) = do check_target ps path i t; check_targets ps path (suc i) ts

  unfoldable pub load_targets : Registry → Str → Except Str → Except (List Target)
  unfolding check_targets
  load_targets ps path file = do
    data_read ← file
    targets ← wrap (codes "parsing " ++ path ++ codes ": ") (unmarshal data_read)
    fail_if (has_none targets) (codes "target list is empty: " ++ path)
    check_targets ps path 0 targets
    ok targets
