-- ===== src/Store/Laws.antt =====
-- What `ingest_run` of probestore/app/routers/ingest.py stores.
use tunnel_ops.Base.{
  ℕ, ◌+◌, ◌==◌, Str, str_eq, str_eq_iff, str_eq_refl, true, false, List, [], ◌∷◌, map, length,
  count_where, All, none, some, is_some, Option-cases, Bool-cases, if◌then◌else◌, ◌≡◌, refl, sym,
  ap, ◌∙◌, inl, inr, arith,
}
use tunnel_ops.Store.{
  NodeRef, ResultIn, RunIn, ProbeResult, Key, key_of, get_item, set_items, Database, node_pairs,
  resolve_nodes, row, rows, run_accepted, new_run, found_run, ingest_run,
}
use tunnel_ops.Store.Documents.{Documented, has_key}
use tunnel_ops.Store.Dicts.{set_items-All, set_items-Keyed, has_key-get_item, Keyed-keys}

module _ {Float64 : Type 0} (db : Database Float64) (doc : Documented db) where
  open db use {
    State, find_run, count_results, insert_run, insert_nodes, select_nodes, insert_results,
  }
  open doc use {node_id}

  -- The dict and the database agree on the node of a result.
  abbrev Resolved : List (Key × ℕ) → State → ResultIn Float64 → Type 0
  Resolved ids s r =
      (i : ℕ) × (get_item (key_of r.node) ids ≡ some i) × (node_id (key_of r.node) s ≡ some i)

  abbrev seen_of : List (ResultIn Float64) → List (Key × NodeRef)
  seen_of rs = set_items (node_pairs rs) []

  resolved :
      (rs : List (ResultIn Float64)) (s : State) (k : Key)
      → is_some (get_item k (seen_of rs)) ≡ true
      → let (ids, s') = resolve_nodes db rs s in
        (i : ℕ) × (get_item k ids ≡ some i) × (node_id k s' ≡ some i)
  unfolding resolve_nodes
  resolved rs s k h =
      let seen = seen_of rs in
      let keys = map (λ e. e.0) seen in
      let s' = insert_nodes (map (λ e. e.1) seen) s in
      let there : has_key k keys ≡ true = has_key-get_item k seen ∙ h in
      let inserted : has_key k (map key_of (map (λ e. e.1) seen)) ≡ true =
        ap (has_key k) (Keyed-keys seen (set_items-Keyed rs [] tt)) ∙ there in
      let held = doc.added-insert_nodes k (map (λ e. e.1) seen) s inserted in
      elim (Option-cases (node_id k s')) [
        | inl e ↦ absurd (ground (arith, e, held))
        | inr (i, e) ↦ (i, doc.get-select_nodes k keys s' ∙ rw (there, e) refl, e)
      ]

  resolve_nodes-Resolved :
      (rs : List (ResultIn Float64)) (s : State)
      → let (ids, s') = resolve_nodes db rs s in All (Resolved ids s') rs
  resolve_nodes-Resolved rs s = each rs (set_items-All (node_pairs rs) [])
    where
      each :
          (later : List (ResultIn Float64))
          → All (λ p. is_some (get_item p.0 (seen_of rs)) ≡ true) (node_pairs later)
          → let (ids, s') = resolve_nodes db rs s in All (Resolved ids s') later
      each [] h = tt
      each (r ∷ later) h = (resolved rs s (key_of r.node) h.0, each later h.1)

  -- The rows say what the results said, of their nodes and of the run.
  abbrev pub Records : State → ℕ → List (ResultIn Float64) → List (ProbeResult Float64) → Type 0
  Records s id [] [] = Unit
  Records s id [] (p ∷ ps) = ⊥
  Records s id (r ∷ rs) [] = ⊥
  Records s id (r ∷ rs) (p ∷ ps) =
      ((i : ℕ) × (node_id (key_of r.node) s ≡ some i) × (p ≡ row i id r)) × Records s id rs ps

  rows-Records :
      (ids : List (Key × ℕ)) (s : State) (id : ℕ) (rs : List (ResultIn Float64))
      → All (Resolved ids s) rs
      → (ps : List (ProbeResult Float64)) × (rows db ids id rs ≡ some ps) × Records s id rs ps
  unfolding rows
  rows-Records ids s id [] h = ([], refl, tt)
  rows-Records ids s id (r ∷ rs) ((i, got, held), h) =
      let (ps, made, records) = rows-Records ids s id rs h in
      (row i id r ∷ ps, rw (got, made) refl, ((i, held, refl), records))

  Records-count :
      (s : State) (id j : ℕ) (rs : List (ResultIn Float64)) (ps : List (ProbeResult Float64))
      → Records s id rs ps
      → count_where (λ p. p.run_id == j) ps ≡ (if id == j then length rs else 0)
  Records-count s id j [] [] h = ground arith
  Records-count s id j [] (p ∷ ps) h = absurd h
  Records-count s id j (r ∷ rs) [] h = absurd h
  Records-count s id j (r ∷ rs) (p ∷ ps) ((i, held, e), h) =
      rw e (ground (arith, Records-count s id j rs ps h))

  Records-moved :
      (s s' : State) (id : ℕ) (rs : List (ResultIn Float64)) (ps : List (ProbeResult Float64))
      → ((k : Key) → node_id k s' ≡ node_id k s)
      → Records s id rs ps
      → Records s' id rs ps
  Records-moved s s' id [] [] same h = tt
  Records-moved s s' id [] (p ∷ ps) same h = h
  Records-moved s s' id (r ∷ rs) [] same h = h
  Records-moved s s' id (r ∷ rs) (p ∷ ps) same ((i, held, e), h) =
      ((i, same (key_of r.node) ∙ held, e), Records-moved s s' id rs ps same h)

  -- What a database holds of a run that it did not hold before.
  pub record Stored (run : RunIn Float64) (s s' : State) : Type 0 where
    pub id : ℕ
    pub found : find_run run.run_id s' ≡ some id
    pub counted : count_results id s' ≡ length run.results
    pub before : State
    pub added : List (ProbeResult Float64)
    pub inserted : s' ≡ insert_results added before
    pub upserted :
        (ns : List NodeRef) × (before
          ≡ insert_nodes ns (insert_run run.run_id run.source run.started_at s).1)
    pub records : Records s' id run.results added
    -- Other runs, and the nodes that were known, stay as they are.
    pub lookups :
        (k : Str) → find_run k s' ≡ (if str_eq run.run_id k then some id else find_run k s)
    pub kept_runs :
        (k : Str) (j : ℕ)
        → find_run k s ≡ some j
        → (find_run k s' ≡ some j) × (count_results j s' ≡ count_results j s)
    pub kept_nodes : (k : Key) (i : ℕ) → node_id k s ≡ some i → node_id k s' ≡ some i

  module _ (run : RunIn Float64) (s : State) (new : find_run run.run_id s ≡ none) where
    abbrev first : ℕ × State
    first = insert_run run.run_id run.source run.started_at s

    abbrev second : List (Key × ℕ) × State
    second = resolve_nodes db run.results first.1

    -- The database behind some rows.
    abbrev behind : List (ProbeResult Float64) → State
    behind ps = insert_results ps second.1

    finds :
        (ps : List (ProbeResult Float64)) (k : Str)
        → find_run k (behind ps) ≡ (if str_eq run.run_id k then some first.0 else find_run k s)
    unfolding resolve_nodes
    finds ps k =
        doc.find-insert_results k ps second.1
        ∙ doc.find-insert_nodes k _ first.1
        ∙ doc.find-insert_run k run.run_id run.source run.started_at s new

    counts :
        (ps : List (ProbeResult Float64)) (j : ℕ)
        → Records second.1 first.0 run.results ps
        → count_results j (behind ps)
          ≡ (if first.0 == j then length run.results else 0) + count_results j s
    unfolding resolve_nodes
    counts ps j records = omega (
      arith,
      doc.count-insert_results j ps second.1,
      doc.count-insert_nodes j (map (λ e. e.1) (seen_of run.results)) first.1,
      doc.count-insert_run j run.run_id run.source run.started_at s,
      Records-count second.1 first.0 j run.results ps records,
    )

    kept_run :
        (ps : List (ProbeResult Float64)) (k : Str) (j : ℕ)
        → Records second.1 first.0 run.results ps
        → find_run k s ≡ some j
        → (find_run k (behind ps) ≡ some j) × (count_results j (behind ps) ≡ count_results j s)
    kept_run ps k j records h =
        let other = doc.other-insert_run k run.run_id run.source run.started_at j s h in
        let apart : str_eq run.run_id k ≡ false = elim (Bool-cases (str_eq run.run_id k)) [
          | inr e ↦ e
          | inl e ↦
              let same = (str_eq_iff run.run_id k).0 e in
              absurd (ground (arith, sym h ∙ rw same at new))
        ] in
        (finds ps k ∙ rw apart h, ground (arith, counts ps j records))

    kept_node :
        (ps : List (ProbeResult Float64)) (k : Key) (i : ℕ)
        → node_id k s ≡ some i
        → node_id k (behind ps) ≡ some i
    unfolding resolve_nodes
    kept_node ps k i h =
        doc.node-insert_results k ps second.1
        ∙ doc.kept-insert_nodes k _ i first.1 (doc.node-insert_run k _ _ _ s ∙ h)

    -- A run with a new identifier is stored: it is found under its identifier, with as many results
    -- as the batch has, each of which says what the batch said of its node; other runs keep their
    -- results, and known nodes are reused. The answer tells the number of the results, and no lookup
    -- of a node fails.
    pub ingest_run-Stored :
        (s' : State) × (ingest_run db run s
          ≡ some (run_accepted run.run_id (length run.results) false, s'))
        × Stored run s s'
    unfolding ingest_run found_run new_run
    ingest_run-Stored =
        let (ps, made, records) =
          rows-Records second.0 second.1 first.0 run.results
            (resolve_nodes-Resolved run.results first.1) in
        (
          behind ps,
          rw (new, made) refl,
          record {
            id = first.0;
            found = finds ps run.run_id ∙ rw (str_eq_refl run.run_id) refl;
            counted = ground (
              arith,
              counts ps first.0 records,
              doc.fresh-insert_run run.run_id run.source run.started_at s,
            );
            before = second.1;
            added = ps;
            inserted = refl;
            upserted = (map (λ e. e.1) (seen_of run.results), unfold resolve_nodes in refl);
            records =
                Records-moved second.1 (behind ps) first.0 run.results ps
                  (λ k. doc.node-insert_results k ps second.1) records;
            lookups = finds ps;
            kept_runs = λ k j h. kept_run ps k j records h;
            kept_nodes = λ k i h. kept_node ps k i h;
          },
        )
