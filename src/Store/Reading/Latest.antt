-- ===== src/Store/Reading/Latest.antt =====
-- What GET /v1/nodes of probestore shows of a run that was stored (probestore/app/routers).
use mathlib.Core.Path.{subst}
use tunnel_ops.Base.{
  ℕ, ◌≤◌, ◌<◌, true, false, ◌&&◌, List, [], ◌∷◌, ◌++◌, map, All, Option, none, some, some-eq,
  Bool-cases, if◌then◌else◌, ◌≡◌, refl, sym, ap, ◌∙◌, ◌⊎◌, inl, inr, arith,
}
use tunnel_ops.Store.{
  ResultIn, RunIn, RunAccepted, ProbeResult, Key, key_eq, key_of, Database, row, ingest_run,
}
use tunnel_ops.Store.Documents.{Documented}
use tunnel_ops.Store.Dicts.{key_eq_refl, key_eq_sound}
use tunnel_ops.Store.Laws.{Records, Stored, ingest_run-Stored}
use tunnel_ops.Store.Reading.{Node, NodeStatus, Selects, node_status, list_nodes}
use tunnel_ops.Store.Reading.Queries.{In, In-append, append-In, In-All, node_key, Read}

module _ {Float64 : Type 0} where
  -- A row, or a status, that says what a result says.
  abbrev Repeats : ProbeResult Float64 → ResultIn Float64 → Type 0
  Repeats p r = (i : ℕ) × (j : ℕ) × (p ≡ row i j r)

  abbrev pub Says : NodeStatus Float64 → ResultIn Float64 → Type 0
  Says st r =
      (st.addr ≡ r.node.addr)
      × (st.sni ≡ r.node.sni)
      × (st.ts ≡ r.ts)
      × (st.up ≡ (r.tcp_ok && r.tls_ok))
      × (st.tcp_ok ≡ r.tcp_ok)
      × (st.tls_ok ≡ r.tls_ok)
      × (st.latency_ms ≡ r.latency_ms)
      × (st.error ≡ r.error)
      × (st.failed_phase ≡ r.failed_phase)

  -- The first status of an address and an SNI.
  pub status_of : Key → List (NodeStatus Float64) → Option (NodeStatus Float64)
  status_of k [] = none
  status_of k (st ∷ sts) = if key_eq (st.addr, st.sni) k then some st else status_of k sts

  Repeats-Says :
      (n : Node) (p : ProbeResult Float64) (r : ResultIn Float64)
      → node_key n ≡ key_of r.node
      → Repeats p r
      → Says (node_status (n, p)) r
  unfolding node_status
  Repeats-Says n p r same (i, j, e) =
      rw e (ap (λ k. k.0) same, ap (λ k. k.1) same, refl, refl, refl, refl, refl, refl, refl)

  -- If every row under a key says what a result says, and there is one, the key's status says it.
  found_status :
      (r : ResultIn Float64) (rows : List (Node × ProbeResult Float64)) (n : Node)
      (p : ProbeResult Float64)
      → ((n' : Node) (p' : ProbeResult Float64)
          → In (n', p') rows
          → node_key n' ≡ key_of r.node
          → Repeats p' r)
      → In (n, p) rows
      → node_key n ≡ key_of r.node
      → (st : NodeStatus Float64) × (status_of (key_of r.node) (map node_status rows) ≡ some st)
        × Says st r
  unfolding status_of node_status
  found_status r [] n p all there same = absurd there
  found_status r ((m, o) ∷ rows) n p all there same = elim (Bool-cases (key_eq (node_key m) k)) [
    | inl e ↦
        let here = key_eq_sound (node_key m) k e in
        rw e (node_status (m, o), refl, Repeats-Says m o r here (all m o (inl refl) here))
    | inr e ↦
        let later = found_status r rows n p (λ n' p' h. all n' p' (inr h)) (behind e there) same in
        rw e later
  ]
    where
      k : Key
      k = key_of r.node

      behind : key_eq (node_key m) k ≡ false → In (n, p) ((m, o) ∷ rows) → In (n, p) rows
      behind e (inr h) = h
      behind e (inl h) =
          let at_head : node_key m ≡ k = sym (ap (λ x. node_key x.0) h) ∙ same in
          let equal : key_eq (node_key m) k ≡ true = ap (λ j. key_eq j k) at_head ∙ key_eq_refl k in
          absurd (ground (arith, e, equal))

module _ {Float64 : Type 0} (db : Database Float64) (doc : Documented db) (q : Selects db)
    (read : Read db doc q) where
  open db use {State, find_run}
  open doc use {node_id}
  open read use {rows_of}

  record_of :
      (s : State) (id : ℕ) (r : ResultIn Float64) (rs : List (ResultIn Float64))
      (ps : List (ProbeResult Float64))
      → Records db doc s id rs ps
      → In r rs
      → (i : ℕ) × (node_id (key_of r.node) s ≡ some i) × In (row i id r) ps
  record_of s id r [] ps h there = absurd there
  record_of s id r (x ∷ rs) [] h there = absurd h
  record_of s id r (x ∷ rs) (p ∷ ps) ((i, held, e), h) (inr there) =
      let (j, held', later) = record_of s id r rs ps h there in (j, held', inr later)
  record_of s id r (x ∷ rs) (p ∷ ps) ((i, held, e), h) (inl same) =
      (i, rw same held, inl (ap (row i id) same ∙ sym e))

  recorded :
      (s : State) (id : ℕ) (p : ProbeResult Float64) (rs : List (ResultIn Float64))
      (ps : List (ProbeResult Float64))
      → Records db doc s id rs ps
      → In p ps
      → (x : ResultIn Float64) × (i : ℕ) × In x rs
        × (node_id (key_of x.node) s ≡ some i)
        × (p ≡ row i id x)
  recorded s id p [] [] h there = absurd there
  recorded s id p [] (o ∷ ps) h there = absurd h
  recorded s id p (x ∷ rs) [] h there = absurd h
  recorded s id p (x ∷ rs) (o ∷ ps) ((i, held, e), h) (inl same) = (x, i, inl refl, held, same ∙ e)
  recorded s id p (x ∷ rs) (o ∷ ps) ((i, held, e), h) (inr there) =
      let (y, j, in_rs, held', e') = recorded s id p rs ps h there in (y, j, inr in_rs, held', e')

  -- The rows behind an ingest are the new ones, and those that were there.
  Stored-rows :
      (run : RunIn Float64) (s s' : State) (h : Stored db doc run s s')
      → rows_of s' ≡ h.added ++ rows_of s
  Stored-rows run s s' h =
      let (ns, e) = h.upserted in
      ap rows_of h.inserted
      ∙ read.rows-insert_results h.added h.before
      ∙ ap (λ x. h.added ++ x)
          (ap rows_of e ∙ read.rows-insert_nodes ns _ ∙ read.rows-insert_run _ _ _ s)

  -- The result is later than any other of its node: in its run, and in what was stored before.
  abbrev pub Newest : State → State → List (ResultIn Float64) → ResultIn Float64 → Type 0
  Newest s s' rs r =
      All (λ x. key_of x.node ≡ key_of r.node → (x ≡ r) ⊎ (x.ts < r.ts)) rs
      × ((i : ℕ)
          → node_id (key_of r.node) s' ≡ some i
          → All (λ p. p.node_id ≡ i → p.ts < r.ts) (rows_of s))

  module _ (run : RunIn Float64) (s s' : State) (h : Stored db doc run s s') (r : ResultIn Float64)
      (there : In r run.results) (newest : Newest s s' run.results r) where
    -- A row of the result's node that is at least as late as the result repeats it.
    late_row :
        (i : ℕ) (p : ProbeResult Float64)
        → node_id (key_of r.node) s' ≡ some i
        → p.node_id ≡ i
        → r.ts ≤ p.ts
        → In p (h.added ++ rows_of s)
        → Repeats p r
    late_row i p held of_node late among = elim (append-In p h.added (rows_of s) among) [
      | inr old ↦
          let earlier = In-All _ p (rows_of s) old (newest.1 i held) of_node in
          absurd (omega (arith, earlier, late))
      | inl added ↦
          let (x, j, in_run, held', e) = recorded s' h.id p run.results h.added h.records added in
          let same_id : j ≡ i = sym (ap (λ o. o.node_id) e) ∙ of_node in
          let same_key =
            read.one_node (key_of x.node) (key_of r.node) i s' (rw same_id at held') held in
          elim (In-All _ x run.results in_run newest.0 same_key) [
            | inl same ↦ (j, h.id, e ∙ ap (row j h.id) same)
            | inr earlier ↦ absurd (omega (arith, earlier, late, ap (λ o. o.ts) e))
          ]
    ]

    shown :
        (i : ℕ) (n : Node) (p : ProbeResult Float64)
        → node_id (key_of r.node) s' ≡ some i
        → In (row i h.id r) h.added
        → In (n, p) (Selects.latest_per_node q s')
        → node_key n ≡ key_of r.node
        → Repeats p r
    shown i n p held stored selected same =
        let rows = Stored-rows run s s' h in
        let (named, of_node, among, newest_of) = read.joined n p s' selected in
        let same_id : n.id ≡ i = some-eq (sym named ∙ ap (λ k. node_id k s') same ∙ held) in
        let in_rows : In (row i h.id r) (rows_of s') =
          subst (In (row i h.id r)) (sym rows) (In-append _ h.added (rows_of s) stored) in
        let late = In-All _ (row i h.id r) (rows_of s') in_rows newest_of (sym same_id) in
        late_row i p held (of_node ∙ same_id) late (subst (In p) rows among)

    Stored-status :
        (st : NodeStatus Float64) × (status_of (key_of r.node) (list_nodes db q s') ≡ some st)
        × Says st r
    unfolding list_nodes
    Stored-status =
        let (i, held, stored) = record_of s' h.id r run.results h.added h.records there in
        let rows = Stored-rows run s s' h in
        let in_rows : In (row i h.id r) (rows_of s') =
          subst (In (row i h.id r)) (sym rows) (In-append _ h.added (rows_of s) stored) in
        let (n, p, selected, same_id) =
          read.complete (key_of r.node) (row i h.id r) s' in_rows held in
        let (named, of_node, among, newest_of) = read.joined n p s' selected in
        let same = read.one_node (node_key n) (key_of r.node) i s' (rw same_id at named) held in
        found_status r (Selects.latest_per_node q s') n p
          (λ n' p' sel same'. shown i n' p' held stored sel same') selected same

  -- After a run with a new identifier is stored, GET /v1/nodes shows for each node of the run what
  -- its newest result said: that it is up exactly where both phases passed, the phases, the latency
  -- and the error. This is where the result is later than any other of its node, in the run and in
  -- what was stored before.
  pub list_nodes-ingest_run :
      (run : RunIn Float64) (s s' : State) (a : RunAccepted) (r : ResultIn Float64)
      → find_run run.run_id s ≡ none
      → ingest_run db run s ≡ some (a, s')
      → In r run.results
      → Newest s s' run.results r
      → (st : NodeStatus Float64) × (status_of (key_of r.node) (list_nodes db q s') ≡ some st)
        × Says st r
  list_nodes-ingest_run run s s' a r new done there newest =
      let (s'', done', stored) = ingest_run-Stored db doc run s new in
      let same : s'' ≡ s' = ap (λ x. x.1) (some-eq (sym done' ∙ done)) in
      Stored-status run s s' (subst (Stored db doc run s) same stored) r there newest
