-- ===== src/Store/Fits.antt =====
-- What the schemas of probestore/app/schemas.py ask of a run and its nodes.
use tunnel_ops.Base.{
  ℕ, ◌≤◌, Str, true, List, [], ◌∷◌, length, All, Option, none, some, ◌≡◌, refl, ◌≢◌, ◌⊎◌, inl, inr,
  ◌↔◌, arith,
}
use tunnel_ops.Store.{NodeRef, ResultIn, RunIn, within_or_none, valid_node, valid_nodes, valid_run}

-- At most so many characters, where there is a text.
abbrev pub Within : ℕ → Option Str → Type 0
Within n none = Unit
Within n (some s) = length s ≤ n

abbrev pub NodeFits : NodeRef → Type 0
NodeFits n =
    (length n.name ≤ 128) × (length n.addr ≤ 255) × (length n.sni ≤ 255) × Within 128 n.provider

within_or_none_iff : (n : ℕ) (o : Option Str) → (within_or_none n o ≡ true) ↔ Within n o
within_or_none_iff n none = (λ h. tt, λ h. refl)
within_or_none_iff n (some s) = (λ h. ground arith, λ h. ground arith)

valid_node_iff : (n : NodeRef) → (valid_node n ≡ true) ↔ NodeFits n
unfolding valid_node
valid_node_iff n =
    let provider = within_or_none_iff 128 n.provider in
    (λ h. ground (arith, provider.0), λ h. ground (arith, provider.1 h.3))

module _ {Float64 : Type 0} where
  -- What the schema asks of a run.
  abbrev pub RunFits : RunIn Float64 → Type 0
  RunFits run =
      (length run.source ≤ 128) × (run.results ≢ []) × All (λ r. NodeFits r.node) run.results

  list_cases :
      (rs : List (ResultIn Float64))
      → (rs ≡ []) ⊎ ((r : ResultIn Float64) × (later : List (ResultIn Float64)) × (rs ≡ r ∷ later))
  list_cases [] = inl refl
  list_cases (r ∷ rs) = inr (r, rs, refl)

  valid_nodes_iff :
      (rs : List (ResultIn Float64)) → (valid_nodes rs ≡ true) ↔ All (λ r. NodeFits r.node) rs
  valid_nodes_iff [] = ((λ h. tt), λ h. refl)
  valid_nodes_iff (r ∷ rs) =
      let node = valid_node_iff r.node in
      let nodes = valid_nodes_iff rs in
      (λ h. ground (arith, node.0, nodes.0), λ h. ground (arith, node.1 h.0, nodes.1 h.1))

  pub valid_run_iff : (run : RunIn Float64) → (valid_run run ≡ true) ↔ RunFits run
  unfolding valid_run
  valid_run_iff run = elim (list_cases run.results) [
    | inl e ↦ simp e (λ h. ground arith, λ h. absurd (h.1 refl))
    | inr (r, rs, e) ↦
        let nodes = valid_nodes_iff (r ∷ rs) in
        simp e (λ h. ground (arith, nodes.0), λ h. ground (arith, nodes.1 h.2))
  ]
