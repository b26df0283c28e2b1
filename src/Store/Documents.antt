-- ===== src/Store/Documents.antt =====
-- What probestore relies on of its database: documented behaviour of the statements.
use tunnel_ops.Base.{
  ℕ, ◌+◌, ◌==◌, Str, str_eq, Bool, true, false, List, [], ◌∷◌, map, count_where, Option, none, some,
  is_some, if◌then◌else◌, ◌≡◌, ◌≢◌,
}
use tunnel_ops.Store.{NodeRef, ProbeResult, Key, key_eq, key_of, get_item, set_items, Database}

abbrev pub has_key : Key → List Key → Bool
has_key k [] = false
has_key k (j ∷ js) = if key_eq j k then true else has_key k js

module _ {Float64 : Type 0} (db : Database Float64) where
  open db use {
    State, find_run, count_results, insert_run, insert_nodes, select_nodes, insert_results,
  }

  -- What is documented of the statements; `node_id` is the primary key of the row that holds an
  -- address and an SNI, of which there is at most one.
  pub record Documented : Type 0 where
    pub node_id : Key → State → Option ℕ
    pub find-insert_run :
        (k id source : Str) (at : ℕ) (s : State)
        → find_run id s ≡ none
        → find_run k (insert_run id source at s).1
          ≡ (if str_eq id k then some (insert_run id source at s).0 else find_run k s)
    pub count-insert_run :
        (i : ℕ) (id source : Str) (at : ℕ) (s : State)
        → count_results i (insert_run id source at s).1 ≡ count_results i s
    -- A new primary key.
    pub fresh-insert_run :
        (id source : Str) (at : ℕ) (s : State) → count_results (insert_run id source at s).0 s ≡ 0
    pub other-insert_run :
        (k id source : Str) (at i : ℕ) (s : State)
        → find_run k s ≡ some i
        → i ≢ (insert_run id source at s).0
    pub find-insert_nodes :
        (k : Str) (ns : List NodeRef) (s : State) → find_run k (insert_nodes ns s) ≡ find_run k s
    pub count-insert_nodes :
        (i : ℕ) (ns : List NodeRef) (s : State)
        → count_results i (insert_nodes ns s) ≡ count_results i s
    pub find-insert_results :
        (k : Str) (rs : List (ProbeResult Float64)) (s : State)
        → find_run k (insert_results rs s) ≡ find_run k s
    pub count-insert_results :
        (i : ℕ) (rs : List (ProbeResult Float64)) (s : State)
        → count_results i (insert_results rs s)
          ≡ count_where (λ r. r.run_id == i) rs + count_results i s
    -- A node that is inserted is there, and a node that was there keeps its row.
    pub added-insert_nodes :
        (k : Key) (ns : List NodeRef) (s : State)
        → has_key k (map key_of ns) ≡ true
        → is_some (node_id k (insert_nodes ns s)) ≡ true
    pub kept-insert_nodes :
        (k : Key) (ns : List NodeRef) (i : ℕ) (s : State)
        → node_id k s ≡ some i
        → node_id k (insert_nodes ns s) ≡ some i
    pub node-insert_run :
        (k : Key) (id source : Str) (at : ℕ) (s : State)
        → node_id k (insert_run id source at s).1 ≡ node_id k s
    pub node-insert_results :
        (k : Key) (rs : List (ProbeResult Float64)) (s : State)
        → node_id k (insert_results rs s) ≡ node_id k s
    -- The rows that are selected, as a dict.
    pub get-select_nodes :
        (k : Key) (keys : List Key) (s : State)
        → get_item k (set_items (select_nodes keys s) [])
          ≡ (if has_key k keys then node_id k s else none)
