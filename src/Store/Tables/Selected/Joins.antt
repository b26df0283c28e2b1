-- ===== src/Store/Tables/Selected/Joins.antt =====
-- That the database of lists does what probestore relies on when it reads.
use mathlib.Core.Path.{subst}
use tunnel_ops.Base.{
  append-nil, ℕ, suc, ◌≤◌, ◌<◌, true, List, [], ◌∷◌, ◌++◌, length, All, Option, none, some, some-eq,
  Bool-cases, ◌≡◌, refl, sym, ap, ◌∙◌, ◌≢◌, inl, inr, arith,
}
use tunnel_ops.Store.{NodeRef, ProbeResult, Key, key_eq, key_of, get_item}
use tunnel_ops.Store.Dicts.{key_eq_sound}
use tunnel_ops.Store.Reading.{Node}
use tunnel_ops.Store.Reading.Queries.{In, In-append, append-In, Pairwise, node_key, Read}
use tunnel_ops.Store.Tables.Selected.{
  node_row, gives, with_result, newest, entry, latest, Newest, newest-Newest, selects,
}
use tunnel_ops.Store.Tables.{Tables, tables, tables-Documented, ids}

gives_iff : (o : Option ℕ) (i : ℕ) → gives o i ≡ true → o ≡ some i
gives_iff none i h = cc
gives_iff (some j) i h = ap some (ground (arith, h))

gives_refl : (i : ℕ) → gives (some i) i ≡ true
gives_refl i = ground arith

In-append_right : {A : Type 0} (a : A) (xs ys : List A) → In a ys → In a (xs ++ ys)
In-append_right a [] ys h = h
In-append_right a (x ∷ xs) ys h = inr (In-append_right a xs ys h)

-- The keys of the nodes are told apart by their positions.
get_item-bounded :
    (k : Key) (ns : List NodeRef) (i : ℕ) → get_item k (ids ns) ≡ some i → i < length ns
get_item-bounded k [] i h = cc
get_item-bounded k (n ∷ ns) i h = elim (Bool-cases (key_eq (key_of n) k)) [
  | inl d ↦ let same : length ns ≡ i = some-eq (rw d at h) in omega (arith, same)
  | inr d ↦ omega (arith, get_item-bounded k ns i (rw d at h))
]

one_position :
    (j k : Key) (ns : List NodeRef) (i : ℕ)
    → get_item j (ids ns) ≡ some i
    → get_item k (ids ns) ≡ some i
    → j ≡ k
one_position j k [] i h h' = cc
one_position j k (n ∷ ns) i h h' = elim (Bool-cases (key_eq (key_of n) j)) [
  | inl d ↦ elim (Bool-cases (key_eq (key_of n) k)) [
    | inl d' ↦ sym (key_eq_sound (key_of n) j d) ∙ key_eq_sound (key_of n) k d'
    | inr d' ↦
        let same : length ns ≡ i = some-eq (rw d at h) in
        absurd (omega (arith, same, get_item-bounded k ns i (rw d' at h')))
  ]
  | inr d ↦ elim (Bool-cases (key_eq (key_of n) k)) [
    | inl d' ↦
        let same : length ns ≡ i = some-eq (rw d' at h') in
        absurd (omega (arith, same, get_item-bounded j ns i (rw d at h)))
    | inr d' ↦ one_position j k ns i (rw d at h) (rw d' at h')
  ]
]

module _ {Float64 : Type 0} where
  -- What a selected pair of a node and a row is.
  abbrev Joined : List (Key × ℕ) → List (ProbeResult Float64) → Node → ProbeResult Float64 → Type 0
  Joined all rs n r =
      (get_item (node_key n) all ≡ some n.id)
      × (r.node_id ≡ n.id)
      × In r rs
      × All (λ p. p.node_id ≡ n.id → p.ts ≤ r.ts) rs

  with_result-Joined :
      (all : List (Key × ℕ)) (rs : List (ProbeResult Float64)) (n : NodeRef) (i : ℕ)
      (o : Option (ProbeResult Float64)) (m : Node) (r : ProbeResult Float64)
      → get_item (key_of n) all ≡ some i
      → Newest i rs o
      → In (m, r) (with_result (node_row n i) o)
      → Joined all rs m r
  with_result-Joined all rs n i none m r e h there = absurd there
  with_result-Joined all rs n i (some p) m r e h (inr there) = absurd there
  with_result-Joined all rs n i (some p) m r e h (inl same) =
      subst (λ x. Joined all rs x.0 x.1) (sym same) (e, h.0, h.1, h.2)

  latest-Joined :
      (all : List (Key × ℕ)) (ns : List NodeRef) (rs : List (ProbeResult Float64)) (m : Node)
      (r : ProbeResult Float64)
      → In (m, r) (latest all ns rs)
      → Joined all rs m r
  latest-Joined all [] rs m r h = absurd h
  latest-Joined all (n ∷ ns) rs m r h =
      elim (append-In (m, r) (latest all ns rs) (entry all n (length ns) rs) h) [
        | inl earlier ↦ latest-Joined all ns rs m r earlier
        | inr here ↦ elim (Bool-cases (gives (get_item (key_of n) all) (length ns))) [
          | inr e ↦ absurd (rw e at here)
          | inl e ↦
              with_result-Joined all rs n (length ns) (newest (length ns) rs) m r (gives_iff _ _ e)
                (newest-Newest (length ns) rs) (rw e at here)
        ]
      ]

  none_held :
      (i : ℕ) (p : ProbeResult Float64) (rs : List (ProbeResult Float64))
      → In p rs
      → p.node_id ≡ i
      → All (λ x. x.node_id ≢ i) rs
      → ⊥
  none_held i p [] h e all = h
  none_held i p (r ∷ rs) (inl same) e all = all.0 (sym (ap (λ x. x.node_id) same) ∙ e)
  none_held i p (r ∷ rs) (inr h) e all = none_held i p rs h e all.1

  with_result_complete :
      (n : Node) (i : ℕ) (p : ProbeResult Float64) (rs : List (ProbeResult Float64))
      (o : Option (ProbeResult Float64))
      → Newest i rs o
      → In p rs
      → p.node_id ≡ i
      → (r : ProbeResult Float64) × In (n, r) (with_result n o)
  with_result_complete n i p rs none h there e = absurd (none_held i p rs there e h)
  with_result_complete n i p rs (some r) h there e = (r, inl refl)

  latest_complete :
      (all : List (Key × ℕ)) (ns : List NodeRef) (rs : List (ProbeResult Float64)) (k : Key)
      (p : ProbeResult Float64) (i : ℕ)
      → In p rs
      → p.node_id ≡ i
      → get_item k (ids ns) ≡ some i
      → get_item k all ≡ some i
      → (n : Node) × (r : ProbeResult Float64) × In (n, r) (latest all ns rs) × (n.id ≡ i)
  latest_complete all [] rs k p i there e held in_all = cc
  latest_complete all (n ∷ ns) rs k p i there e held in_all =
      elim (Bool-cases (key_eq (key_of n) k)) [
        | inr d ↦
            let (m, r, selected, same) =
              latest_complete all ns rs k p i there e (rw d at held) in_all in
            (m, r, In-append _ (latest all ns rs) (entry all n (length ns) rs) selected, same)
        | inl d ↦
            let at_length : length ns ≡ i = some-eq (rw d at held) in
            let own : gives (get_item (key_of n) all) (length ns) ≡ true =
              ap (λ j. gives (get_item j all) (length ns)) (key_eq_sound (key_of n) k d)
              ∙ ap (λ o. gives o (length ns)) in_all
              ∙ ap (gives (some i)) at_length
              ∙ gives_refl i in
            let (r, selected) =
              with_result_complete (node_row n (length ns)) (length ns) p rs (newest (length ns) rs)
                (newest-Newest (length ns) rs) there (e ∙ sym at_length) in
            (
              node_row n (length ns),
              r,
              In-append_right _ (latest all ns rs) (entry all n (length ns) rs) (rw own selected),
              at_length,
            )
      ]

  abbrev Below : ℕ → List (Node × ProbeResult Float64) → Type 0
  Below i es = All (λ e. e.0.id < i) es

  abbrev Ascending : List (Node × ProbeResult Float64) → Type 0
  Ascending = Pairwise (λ e e'. e.0.id < e'.0.id)

  with_result-appended :
      (es : List (Node × ProbeResult Float64)) (n : Node) (o : Option (ProbeResult Float64))
      → Ascending es
      → Below n.id es
      → Ascending (es ++ with_result n o) × Below (suc n.id) (es ++ with_result n o)
  with_result-appended [] n none h b = (tt, tt)
  with_result-appended [] n (some r) h b = ((tt, tt), (omega arith, tt))
  with_result-appended (e ∷ es) n o h b =
      let (later, below) = with_result-appended es n o h.1 b.1 in
      ((appended es o h.0, later), (omega (arith, b.0), below))
    where
      appended :
          (xs : List (Node × ProbeResult Float64)) (o' : Option (ProbeResult Float64))
          → All (λ x. e.0.id < x.0.id) xs
          → All (λ x. e.0.id < x.0.id) (xs ++ with_result n o')
      appended [] none k = tt
      appended [] (some r) k = (b.0, tt)
      appended (x ∷ xs) o' k = (k.0, appended xs o' k.1)

  Below-suc : (i : ℕ) (es : List (Node × ProbeResult Float64)) → Below i es → Below (suc i) es
  Below-suc i [] h = tt
  Below-suc i (e ∷ es) h = (omega (arith, h.0), Below-suc i es h.1)

  latest-Ascending :
      (all : List (Key × ℕ)) (ns : List NodeRef) (rs : List (ProbeResult Float64))
      → Ascending (latest all ns rs) × Below (length ns) (latest all ns rs)
  latest-Ascending all [] rs = (tt, tt)
  latest-Ascending all (n ∷ ns) rs =
      let (h, b) = latest-Ascending all ns rs in
      elim (Bool-cases (gives (get_item (key_of n) all) (length ns))) [
        | inl e ↦ rw e (
            with_result-appended (latest all ns rs) (node_row n (length ns)) (newest (length ns) rs)
              h b)
        | inr e ↦ rw (e, append-nil) (h, Below-suc (length ns) (latest all ns rs) b)
      ]

  pub tables-Read : Read (tables {Float64 = Float64}) tables-Documented selects
  unfolding tables-Documented
  tables-Read = record {
    rows_of = λ s. s.results;
    rows-insert_run = λ id source at s. refl;
    rows-insert_nodes = λ ns s. refl;
    rows-insert_results = λ rs s. refl;
    one_node = λ j k i s h h'. one_position j k s.nodes i h h';
    joined = λ n r s h. latest-Joined (ids s.nodes) s.nodes s.results n r h;
    complete = λ k p s there held.
        latest_complete (ids s.nodes) s.nodes s.results k p p.node_id there refl held held;
    distinct = λ s. (latest-Ascending (ids s.nodes) s.nodes s.results).0;
  }

  pub rows-tables : (s : Tables Float64) → Read.rows_of tables-Read s ≡ s.results
  unfolding tables-Read
  rows-tables s = refl
