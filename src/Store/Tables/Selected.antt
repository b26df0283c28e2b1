-- ===== src/Store/Tables/Selected.antt =====
-- What the database of lists selects: it does what probestore relies on when it reads.
pub mod Joins
use tunnel_ops.Base.{
  ℕ, ◌==◌, ◌≤◌, leb, Str, str_eq, Bool, true, false, List, [], ◌∷◌, ◌++◌, take, length, All, Option,
  none, some, Bool-cases, if◌then◌else◌, ◌≡◌, refl, ◌≢◌, inl, inr, arith,
}
use tunnel_ops.Store.{NodeRef, ProbeResult, Key, key_of, get_item}
use tunnel_ops.Store.Reading.{Node, Selects}
use tunnel_ops.Store.Reading.Queries.{In}
use tunnel_ops.Store.Tables.{tables, ids}

abbrev node_row : NodeRef → ℕ → Node
node_row n i = record { id = i; name = n.name; addr = n.addr; sni = n.sni; provider = n.provider }

-- Whether a lookup gave a key.
abbrev gives : Option ℕ → ℕ → Bool
gives none i = false
gives (some j) i = j == i

abbrev named_in : Str → List NodeRef → Option Node
named_in name [] = none
named_in name (n ∷ ns) =
    if str_eq n.name name then some (node_row n (length ns)) else named_in name ns

abbrev not_before : Option ℕ → ℕ → Bool
not_before none ts = true
not_before (some since) ts = leb since ts

module _ {Float64 : Type 0} where
  abbrev later_of :
      Bool → ProbeResult Float64 → Option (ProbeResult Float64) → Option (ProbeResult Float64)
  later_of false r o = o
  later_of true r none = some r
  later_of true r (some p) = if leb p.ts r.ts then some r else some p

  abbrev newest : ℕ → List (ProbeResult Float64) → Option (ProbeResult Float64)
  newest i [] = none
  newest i (r ∷ rs) = later_of (r.node_id == i) r (newest i rs)

  abbrev with_result : Node → Option (ProbeResult Float64) → List (Node × ProbeResult Float64)
  with_result n none = []
  with_result n (some r) = (n, r) ∷ []

  abbrev entry :
      List (Key × ℕ) → NodeRef → ℕ → List (ProbeResult Float64) → List (Node × ProbeResult Float64)
  entry all n i rs =
      if gives (get_item (key_of n) all) i then with_result (node_row n i) (newest i rs) else []

  abbrev latest :
      List (Key × ℕ) → List NodeRef → List (ProbeResult Float64) → List (Node × ProbeResult Float64)
  latest all [] rs = []
  latest all (n ∷ ns) rs = latest all ns rs ++ entry all n (length ns) rs

  abbrev sorted_in : ProbeResult Float64 → List (ProbeResult Float64) → List (ProbeResult Float64)
  sorted_in r [] = r ∷ []
  sorted_in r (p ∷ ps) =
      let later = sorted_in r ps in if leb p.ts r.ts then r ∷ p ∷ ps else p ∷ later

  abbrev history : ℕ → Option ℕ → List (ProbeResult Float64) → List (ProbeResult Float64)
  history i since [] = []
  history i since (r ∷ rs) =
      let rest = history i since rs in
      if r.node_id == i then (if not_before since r.ts then sorted_in r rest else rest) else rest

  -- A node's newest row, or that it has none.
  abbrev Newest : ℕ → List (ProbeResult Float64) → Option (ProbeResult Float64) → Type 0
  Newest i rs none = All (λ p. p.node_id ≢ i) rs
  Newest i rs (some r) = (r.node_id ≡ i) × In r rs × All (λ p. p.node_id ≡ i → p.ts ≤ r.ts) rs

  All-impl :
      (P Q : ProbeResult Float64 → Type 0) (rs : List (ProbeResult Float64))
      → ((p : ProbeResult Float64) → P p → Q p)
      → All P rs
      → All Q rs
  All-impl P Q [] f h = tt
  All-impl P Q (r ∷ rs) f h = (f r h.0, All-impl P Q rs f h.1)

  later_of-Newest :
      (i : ℕ) (b : Bool) (r : ProbeResult Float64) (rs : List (ProbeResult Float64))
      (o : Option (ProbeResult Float64))
      → (r.node_id == i) ≡ b
      → Newest i rs o
      → Newest i (r ∷ rs) (later_of b r o)
  later_of-Newest i false r rs none e h = ((λ k. ground (arith, e, k)), h)
  later_of-Newest i false r rs (some p) e h =
      (h.0, inr h.1, ((λ k. absurd (ground (arith, e, k))), h.2))
  later_of-Newest i true r rs none e h = (
    ground (arith, e),
    inl refl,
    ((λ k. omega arith), All-impl _ _ rs (λ p apart of_node. absurd (apart of_node)) h),
  )
  later_of-Newest i true r rs (some p) e h = elim (Bool-cases (leb p.ts r.ts)) [
    | inl k ↦ rw k (
      ground (arith, e),
      inl refl,
      ((λ k'. omega arith), All-impl _ _ rs (λ x le of_node. ground (arith, le of_node, k)) h.2),
    )
    | inr k ↦ rw k (h.0, inr h.1, ((λ k'. ground (arith, k)), h.2))
  ]

  newest-Newest : (i : ℕ) (rs : List (ProbeResult Float64)) → Newest i rs (newest i rs)
  newest-Newest i [] = tt
  newest-Newest i (r ∷ rs) =
      later_of-Newest i (r.node_id == i) r rs (newest i rs) refl (newest-Newest i rs)

module _ {Float64 : Type 0} where
  abbrev pub selects : Selects (tables {Float64 = Float64})
  selects = record {
    latest_per_node = λ s. latest (ids s.nodes) s.nodes s.results;
    node_named = λ name s. named_in name s.nodes;
    newest_first = λ i since limit s. take limit (history i since s.results);
    responds = λ s. true;
  }
