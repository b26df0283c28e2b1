-- ===== src/Store/Tables.antt =====
-- A database of lists, for the tests: it does what the statements of probestore rely on.
pub mod Selected
use tunnel_ops.Base.{
  ℕ, suc, max, ◌==◌, ◌≤◌, Str, str_eq, true, List, [], ◌∷◌, ◌++◌, map, length, count_where,
  count_where-append, Option, none, some, is_some, Option-cases, Bool-cases, if◌then◌else◌, ◌≡◌,
  refl, ap, ◌∙◌, inl, inr, arith,
}
use tunnel_ops.Store.{
  NodeRef, ProbeResult, Key, key_eq, key_of, set_item, get_item, set_items, Database,
}
use tunnel_ops.Store.Documents.{Documented, has_key}
use tunnel_ops.Store.Dicts.{key_eq_sound, get_item-set_item}

-- Runs under their identifiers, with their primary keys, and nodes, the newest one first: the key of
-- a node is the number of those before it.
pub record Tables (Float64 : Type 0) : Type 0 where
  pub runs : List (Str × ℕ)
  pub nodes : List NodeRef
  pub results : List (ProbeResult Float64)

abbrev find_in : Str → List (Str × ℕ) → Option ℕ
find_in k [] = none
find_in k ((j, i) ∷ runs) = if str_eq j k then some i else find_in k runs

-- A number above all keys of the runs.
abbrev above_runs : List (Str × ℕ) → ℕ
above_runs [] = 0
above_runs ((j, i) ∷ runs) = max (suc i) (above_runs runs)

-- The nodes under their addresses, with their primary keys.
abbrev pub ids : List NodeRef → List (Key × ℕ)
ids [] = []
ids (n ∷ ns) = (key_of n, length ns) ∷ ids ns

abbrev insert_each : List NodeRef → List NodeRef → List NodeRef
insert_each [] nodes = nodes
insert_each (n ∷ ns) nodes =
    insert_each ns (if is_some (get_item (key_of n) (ids nodes)) then nodes else n ∷ nodes)

abbrev found_row : Key → Option ℕ → List (Key × ℕ)
found_row k none = []
found_row k (some i) = (k, i) ∷ []

abbrev select_each : List Key → List (Key × ℕ) → List (Key × ℕ)
select_each [] nodes = []
select_each (k ∷ ks) nodes = found_row k (get_item k nodes) ++ select_each ks nodes

find_in-above_runs :
    (k : Str) (i : ℕ) (runs : List (Str × ℕ)) → find_in k runs ≡ some i → suc i ≤ above_runs runs
find_in-above_runs k i [] h = cc
find_in-above_runs k i ((j, l) ∷ runs) h = ground (arith, find_in-above_runs k i runs)

insert_each-kept :
    (k : Key) (ns : List NodeRef) (i : ℕ) (nodes : List NodeRef)
    → get_item k (ids nodes) ≡ some i
    → get_item k (ids (insert_each ns nodes)) ≡ some i
insert_each-kept k [] i nodes h = h
insert_each-kept k (n ∷ ns) i nodes h =
    insert_each-kept k ns i _ (elim (Bool-cases (is_some (get_item (key_of n) (ids nodes)))) [
      | inl e ↦ rw e h
      | inr e ↦ rw e (elim (Bool-cases (key_eq (key_of n) k)) [
        | inr d ↦ rw d h
        | inl d ↦ let same = key_eq_sound (key_of n) k d in absurd (ground (arith, h, rw same at e))
      ])
    ])

-- The list behind an insertion has the node.
inserted :
    (k : Key) (n : NodeRef) (nodes : List NodeRef)
    → key_eq (key_of n) k ≡ true
    → (i : ℕ) × (get_item k
          (ids (if is_some (get_item (key_of n) (ids nodes)) then nodes else n ∷ nodes))
        ≡ some i)
inserted k n nodes d =
    let same = key_eq_sound (key_of n) k d in
    elim (Option-cases (get_item (key_of n) (ids nodes))) [
      | inl e ↦ (length nodes, rw (e, d) refl)
      | inr (i, e) ↦ (i, rw (e, ← same) e)
    ]

insert_each-added :
    (k : Key) (ns : List NodeRef) (nodes : List NodeRef)
    → has_key k (map key_of ns) ≡ true
    → is_some (get_item k (ids (insert_each ns nodes))) ≡ true
insert_each-added k [] nodes h = cc
insert_each-added k (n ∷ ns) nodes h = elim (Bool-cases (key_eq (key_of n) k)) [
  | inr d ↦ insert_each-added k ns _ (rw d at h)
  | inl d ↦ let (i, held) = inserted k n nodes d in ap is_some (insert_each-kept k ns i _ held)
]

select_each-get_item :
    (k : Key) (keys : List Key) (nodes d : List (Key × ℕ))
    → get_item k (set_items (select_each keys nodes) d) ≡ (
        if has_key k keys
        then (if is_some (get_item k nodes) then get_item k nodes else get_item k d)
        else get_item k d)
select_each-get_item k [] nodes d = refl
select_each-get_item k (j ∷ keys) nodes d = elim (Option-cases (get_item j nodes)) [
  | inl e ↦ rw (e, select_each-get_item k keys nodes d) (ground (arith, absent e))
  | inr (i, e) ↦
      rw (e, select_each-get_item k keys nodes (set_item j i d), get_item-set_item k j i d)
        (ground (arith, present i e))
]
  where
    absent : get_item j nodes ≡ none → key_eq j k ≡ true → get_item k nodes ≡ none
    absent e h = rw (← key_eq_sound j k h) e

    present : (i : ℕ) → get_item j nodes ≡ some i → key_eq j k ≡ true → get_item k nodes ≡ some i
    present i e h = rw (← key_eq_sound j k h) e

module _ {Float64 : Type 0} where
  abbrev above_results : List (ProbeResult Float64) → ℕ
  above_results [] = 0
  above_results (r ∷ rs) = max (suc r.run_id) (above_results rs)

  none_above :
      (n : ℕ) (rs : List (ProbeResult Float64))
      → above_results rs ≤ n
      → count_where (λ r. r.run_id == n) rs ≡ 0
  none_above n [] h = refl
  none_above n (r ∷ rs) h = ground (arith, none_above n rs (omega (arith, h)))

  abbrev fresh : Tables Float64 → ℕ
  fresh s = max (above_runs s.runs) (above_results s.results)

  abbrev pub tables : Database Float64
  tables = record {
    State = Tables Float64;
    find_run = λ k s. find_in k s.runs;
    count_results = λ i s. count_where (λ r. r.run_id == i) s.results;
    insert_run = λ k source at s. (fresh s, record s { runs = (k, fresh s) ∷ s.runs });
    insert_nodes = λ ns s. record s { nodes = insert_each ns s.nodes };
    select_nodes = λ keys s. select_each keys (ids s.nodes);
    insert_results = λ rs s. record s { results = rs ++ s.results };
  }

  pub tables-Documented : Documented tables
  tables-Documented = record {
    node_id = λ k s. get_item k (ids s.nodes);
    find-insert_run = λ k id source at s h. refl;
    count-insert_run = λ i id source at s. refl;
    fresh-insert_run = λ id source at s. none_above (fresh s) s.results (omega arith);
    other-insert_run =
        λ k id source at i s h e. absurd (omega (arith, e, find_in-above_runs k i s.runs h));
    find-insert_nodes = λ k ns s. refl;
    count-insert_nodes = λ i ns s. refl;
    find-insert_results = λ k rs s. refl;
    count-insert_results = λ i rs s. count_where-append (λ r. r.run_id == i) rs s.results;
    added-insert_nodes = λ k ns s h. insert_each-added k ns s.nodes h;
    kept-insert_nodes = λ k ns i s h. insert_each-kept k ns i s.nodes h;
    node-insert_run = λ k id source at s. refl;
    node-insert_results = λ k rs s. refl;
    get-select_nodes = λ k keys s. select_each-get_item k keys (ids s.nodes) [] ∙ ground arith;
  }
