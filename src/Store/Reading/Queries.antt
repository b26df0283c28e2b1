-- ===== src/Store/Reading/Queries.antt =====
-- What probestore relies on of the statements that it reads by: documented behaviour of PostgreSQL.
use mathlib.Core.Path.{subst}
use tunnel_ops.Base.{
  refl, ℕ, ◌≤◌, ◌<◌, List, [], ◌∷◌, ◌++◌, All, some, ◌≡◌, sym, ◌⊎◌, inl, inr, Str,
}
use tunnel_ops.Store.{NodeRef, ProbeResult, Key, Database}
use tunnel_ops.Store.Documents.{Documented}
use tunnel_ops.Store.Reading.{Node, Selects}

abbrev pub In : {A : Type 0} → A → List A → Type 0
In a [] = ⊥
In a (x ∷ xs) = (a ≡ x) ⊎ In a xs

-- Each element stands in a relation to those behind it.
abbrev pub Pairwise {ℓ κ} : {A : Type ℓ} → (A → A → Type κ) → List A → Type κ
Pairwise R [] = Unit
Pairwise R (x ∷ xs) = All (R x) xs × Pairwise R xs

module _ {A : Type 0} where
  pub In-append : (a : A) (xs ys : List A) → In a xs → In a (xs ++ ys)
  In-append a [] ys h = absurd h
  In-append a (x ∷ xs) ys (inl e) = inl e
  In-append a (x ∷ xs) ys (inr h) = inr (In-append a xs ys h)

  pub append-In : (a : A) (xs ys : List A) → In a (xs ++ ys) → In a xs ⊎ In a ys
  append-In a [] ys h = inr h
  append-In a (x ∷ xs) ys (inl e) = inl (inl e)
  append-In a (x ∷ xs) ys (inr h) = elim (append-In a xs ys h) [
    | inl k ↦ inl (inr k)
    | inr k ↦ inr k
  ]

  pub In-middle : (a : A) (xs ys : List A) → In a (xs ++ a ∷ ys)
  In-middle a [] ys = inl refl
  In-middle a (x ∷ xs) ys = inr (In-middle a xs ys)

  pub In-All : (P : A → Type 0) (a : A) (xs : List A) → In a xs → All P xs → P a
  In-All P a [] h all = absurd h
  In-All P a (x ∷ xs) (inl e) all = subst P (sym e) all.0
  In-All P a (x ∷ xs) (inr h) all = In-All P a xs h all.1

abbrev pub node_key : Node → Key
node_key n = (n.addr, n.sni)

module _ {Float64 : Type 0} (db : Database Float64) (doc : Documented db) (q : Selects db) where
  open db use {State, insert_run, insert_nodes, insert_results}
  open doc use {node_id}
  open q use {latest_per_node}

  -- What is documented of the statements; `rows_of` are the rows of probe_result.
  pub record Read : Type 0 where
    pub rows_of : State → List (ProbeResult Float64)
    pub rows-insert_run :
        (id source : Str) (at : ℕ) (s : State) → rows_of (insert_run id source at s).1 ≡ rows_of s
    pub rows-insert_nodes :
        (ns : List NodeRef) (s : State) → rows_of (insert_nodes ns s) ≡ rows_of s
    pub rows-insert_results :
        (rs : List (ProbeResult Float64)) (s : State)
        → rows_of (insert_results rs s) ≡ rs ++ rows_of s
    -- A primary key has one row.
    pub one_node :
        (j k : Key) (i : ℕ) (s : State) → node_id j s ≡ some i → node_id k s ≡ some i → j ≡ k
    -- The join: nodes with rows of theirs, and by the order of the rows, the newest.
    pub joined :
        (n : Node) (r : ProbeResult Float64) (s : State)
        → In (n, r) (latest_per_node s)
        → (node_id (node_key n) s ≡ some n.id)
          × (r.node_id ≡ n.id)
          × In r (rows_of s)
          × All (λ p. p.node_id ≡ n.id → p.ts ≤ r.ts) (rows_of s)
    pub complete :
        (k : Key) (p : ProbeResult Float64) (s : State)
        → In p (rows_of s)
        → node_id k s ≡ some p.node_id
        → (n : Node) × (r : ProbeResult Float64) × In (n, r) (latest_per_node s)
          × (n.id ≡ p.node_id)
    -- DISTINCT ON the id of the node, in its order.
    pub distinct : (s : State) → Pairwise (λ e e'. e.0.id < e'.0.id) (latest_per_node s)
