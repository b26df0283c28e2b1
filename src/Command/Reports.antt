-- ===== src/Command/Reports.antt =====
-- What `main` of cmd/nodecheck/main.go prints, of the runs that `runAll` makes.
use mathlib.Core.Path.{subst}
use mathlib.Core.List.{Perm}
use mathlib.Core.List.Perm
use tunnel_ops.Base.{
  Str, str_lt, Bool, true, false, List, [], ◌∷◌, All, Option, none, some, ◌≡◌, refl, ◌⊎◌, inl, inr,
  ok,
}
use tunnel_ops.Target.{Target, Result}
use tunnel_ops.Prober.{Runtime}
use tunnel_ops.Prober.Laws.{built_in}
use tunnel_ops.RunAll.{Run, Reachable}
use tunnel_ops.RunAll.Results.{Each, Reachable-closed}
use tunnel_ops.RunAll.Probes.{Probed, result_names, target_names, Each-names}
use tunnel_ops.Command.{Flags, World, Ended, name_lt, written, write_results, main}
use tunnel_ops.Command.Course.{
  Course, shows_version, not_loaded, not_written, not_pushed, concluded, main-Course,
}
use tunnel_ops.Command.Stages.{
  loading, results, reported, Prints, write_results-Prints, Unprinted, write_results-Unprinted,
}
use tunnel_ops.Push.Delivery.{Request}
use tunnel_ops.Command.{push_stage}
use tunnel_ops.Command.Sent.{Carries, push_stage-Carries}
use tunnel_ops.Command.Laws.{Permutes}

module _ (rt : Runtime) (world : World rt) (flags : Flags) where
  open rt use {floating}
  open floating use {Float64}

  -- No result stands before one that is less.
  abbrev pub OrderedBy : (Result Float64 → Result Float64 → Bool) → List (Result Float64) → Type 0
  OrderedBy less [] = Unit
  OrderedBy less (r ∷ rs) = All (λ later. less later r ≡ false) rs × OrderedBy less rs

  -- What package sort documents of the order, for the comparison that it is given.
  abbrev pub Orders : Type 0
  Orders = (rs : List (Result Float64)) → OrderedBy name_lt (world.sort_slice name_lt rs)

  -- The names ascend.
  abbrev pub Ascends : List (Result Float64) → Type 0
  Ascends = OrderedBy (λ r r'. str_lt r.name r'.name)

  OrderedBy-name_lt : (rs : List (Result Float64)) → OrderedBy name_lt rs → Ascends rs
  unfolding name_lt
  OrderedBy-name_lt rs h = h

  -- The results of a target list are those of a run of `runAll` that has closed its channel.
  abbrev pub RunsAll : List Target → Type 0
  RunsAll ts =
      (s : Run (Result Float64)) × Reachable (Result Float64) (Probed rt built_in flags.timeout) ts
        flags.concurrency s
      × (s.closed ≡ true)
      × (results rt world flags ts ≡ s.out)

  -- One result of each target's own probe, in the targets' order.
  abbrev pub MadeFor : List Target → List (Result Float64) → Type 0
  MadeFor ts rs =
      (made : List (Result Float64)) × Each (Result Float64) (Probed rt built_in flags.timeout) ts
        made
      × Perm rs made

  -- A report on a target list: ordered by name, and one result of each target's own probe.
  abbrev pub Reports : List Target → List (Result Float64) → Type 0
  Reports ts rs = Ascends rs × MadeFor ts rs × Perm (result_names rt rs) (target_names rt ts)

  -- What a process that loaded its targets has printed and sent when it ends: all of it, or nothing.
  -- Each request has the reported results as its payload.
  abbrev pub Shows : List Target → Ended → Type 0
  Shows ts e =
      ((e.stdout ≡ [])
        × (e.requests ≡ [])
        × Unprinted rt world flags (reported rt world flags ts) e.code)
      ⊎ (Prints rt world flags (reported rt world flags ts) e.stdout
          × All (Carries rt world flags (reported rt world flags ts)) e.requests)

  pub reported-made :
      Permutes rt world → (ts : List Target) → RunsAll ts → MadeFor ts (reported rt world flags ts)
  reported-made permutes ts (s, reached, shut, e) =
      let (made, each, perm) =
        Reachable-closed (Result Float64) (Probed rt built_in flags.timeout) ts flags.concurrency s
          reached shut in
      let same : Perm (results rt world flags ts) made = rw e perm in
      (made, each, Perm.trans (permutes (results rt world flags ts)) same)

  reported-names :
      (ts : List Target) (rs : List (Result Float64))
      → MadeFor ts rs
      → Perm (result_names rt rs) (target_names rt ts)
  reported-names ts rs (made, each, perm) =
      let names : Perm (result_names rt rs) (result_names rt made) = Perm.map (λ r. r.name) perm in
      subst (Perm _) (Each-names rt flags.timeout ts made each) names

  printed :
      (ts us : List Target) (stdout : Str) (requests : List Request) (o : Option Str)
      → loading rt world flags ≡ ok ts
      → loading rt world flags ≡ ok us
      → write_results rt world flags.format (reported rt world flags us) ≡ written stdout
      → push_stage rt world flags (reported rt world flags us) ≡ some (requests, o)
      → {A : Type 0}
      → A
        ⊎ (Prints rt world flags (reported rt world flags ts) stdout
            × All (Carries rt world flags (reported rt world flags ts)) requests)
  printed ts us stdout requests o loaded k l m =
      let same : us ≡ ts = cc in
      let rs = reported rt world flags us in
      inr (
        subst
          (λ x.
            Prints rt world flags (reported rt world flags x) stdout
            × All (Carries rt world flags (reported rt world flags x)) requests)
          same
          (
            (write_results-Prints rt world flags rs stdout).0 l,
            push_stage-Carries rt world flags rs (requests, o) m,
          ))

  Course-Shows :
      {e : Ended} (ts : List Target)
      → flags.show_version ≡ false
      → loading rt world flags ≡ ok ts
      → Course rt world flags e
      → Shows ts e
  Course-Shows ts runs loaded (shows_version shows) = cc
  Course-Shows ts runs loaded (not_loaded e runs' k) = cc
  Course-Shows ts runs loaded (not_written us code e runs' k l) =
      let same : us ≡ ts = cc in
      inl (
        refl,
        refl,
        subst (λ x. Unprinted rt world flags (reported rt world flags x) code) same
            (write_results-Unprinted rt world flags (reported rt world flags us) code e l),
      )
  Course-Shows ts runs loaded (not_pushed us stdout e requests runs' k l m) =
      printed ts us stdout requests (some e) loaded k l m
  Course-Shows ts runs loaded (concluded us stdout requests runs' k l m) =
      printed ts us stdout requests none loaded k l m

  -- A process that loads its targets ends without a panic, and reports on them: the results that
  -- it prints and pushes are ordered by name, they are a permutation of a list that has, for each
  -- target in turn, one result of a probe of that target, and their names are the targets'. It
  -- prints what the format makes of them, and each request that it sends has as its body the payload
  -- that `buildPayload` makes of the same results; or else it prints and sends nothing, since the format is
  -- unknown or the JSON could not be encoded. For `runAll`, this is at every run that closes its
  -- channel, however the goroutines interleave.
  pub main-Reports :
      (ts : List Target)
      → flags.show_version ≡ false
      → loading rt world flags ≡ ok ts
      → RunsAll ts
      → Permutes rt world
      → Orders
      → (e : Ended) × (main rt world flags ≡ some e)
        × Shows ts e
        × Reports ts (reported rt world flags ts)
  main-Reports ts runs loaded ran permutes orders =
      let (e, ends, course) = main-Course rt world flags in
      let made = reported-made permutes ts ran in
      (
        e,
        ends,
        Course-Shows ts runs loaded course,
        (
          OrderedBy-name_lt (reported rt world flags ts) (orders (results rt world flags ts)),
          made,
          reported-names ts (reported rt world flags ts) made,
        ),
      )
