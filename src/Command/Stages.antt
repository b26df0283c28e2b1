-- ===== src/Command/Stages.antt =====
-- What the stages of `main` of cmd/nodecheck/main.go come to: the output, and the push.
use mathlib.Core.Path.{subst}
use tunnel_ops.Base.{
  ℕ, Str, codes, str_eq_iff, List, [], Option, none, some, ◌≡◌, refl, sym, ◌∙◌, some-eq, ◌≢◌, ◌⊎◌,
  inl, inr, ◌↔◌, arith, Except, ok, err, Except-cases, is_empty-cases,
}
use tunnel_ops.Target.{Target, Result}
use tunnel_ops.Prober.{Runtime}
use tunnel_ops.Prober.Laws.{built_in}
use tunnel_ops.Loading.{load_targets}
use tunnel_ops.Report.{write_prom}
use tunnel_ops.Push.{PushPayload, new_uuid_v4, build_payload}
use tunnel_ops.Push.Laws.{build_payload-Ships}
use tunnel_ops.Push.Delivery.{Request, backoff, push_results}
use tunnel_ops.Push.Delivery.Laws.{Delivers, push_results-none_iff}
use tunnel_ops.Command.{
  Flags, World, name_lt, source_of, written, refused, encoded, write_results, pushed_as, push_stage,
}

module _ (rt : Runtime) (world : World rt) (flags : Flags) where
  open rt use {floating}
  open floating use {Float64}

  -- What `loadTargets` returns for the file that the flag names.
  abbrev pub loading : Except (List Target)
  loading =
      load_targets rt world.unmarshal world.generated built_in flags.targets_file
        (world.read_file flags.targets_file)

  -- The results that `runAll` returned, and the same in the order of the report.
  abbrev pub results : List Target → List (Result Float64)
  results ts = world.ran ts flags.timeout flags.concurrency

  abbrev pub reported : List Target → List (Result Float64)
  reported ts = world.sort_slice name_lt (results ts)

  -- What the format makes of the results.
  abbrev pub Prints : List (Result Float64) → Str → Type 0
  Prints rs text =
      ((flags.format ≡ codes "prom") × (text ≡ write_prom floating rs))
      ⊎ ((flags.format ≡ codes "json") × (world.encode rs ≡ ok text))

  -- Why nothing is printed.
  abbrev pub Unprinted : List (Result Float64) → ℕ → Type 0
  Unprinted rs code =
      ((code ≡ 1) × (flags.format ≡ codes "json") × ((e : Str) × (world.encode rs ≡ err e)))
      ⊎ ((code ≡ 2) × (flags.format ≢ codes "prom") × (flags.format ≢ codes "json"))

  -- A payload that the server takes.
  abbrev pub Takes : PushPayload Float64 → Type 0
  Takes p =
      (body : Str) × (world.marshal p ≡ ok body)
      × Delivers world.trim_space flags.push_url world.push_token body
          (world.answers flags.push_timeout) backoff 0

  -- The results are stored, where the flags ask for it: an identifier can be made, the payload can
  -- be encoded, and the server takes it.
  abbrev pub Stores : List (Result Float64) → Str → Type 0
  Stores rs id =
      (p : PushPayload Float64) × (build_payload floating id
          (source_of flags.push_source world.hostname) world.now rs
        ≡ some p)
      × Takes p

  abbrev pub Stored : List (Result Float64) → Type 0
  Stored rs =
      (flags.push_url ≡ [])
      ⊎ ((flags.push_url ≢ []) × ((id : Str) × (new_uuid_v4 world.random ≡ ok id) × Stores rs id))

  encoded_iff : (m : Except Str) (text : Str) → (encoded rt m ≡ written text) ↔ (m ≡ ok text)
  unfolding encoded
  encoded_iff (ok s) text = (λ h. cc, λ h. cc)
  encoded_iff (err e) text = (λ h. cc, λ h. cc)

  -- The output is written exactly where it is what the format makes of the results.
  pub write_results-Prints :
      (rs : List (Result Float64)) (text : Str)
      → (write_results rt world flags.format rs ≡ written text) ↔ Prints rs text
  unfolding write_results
  write_results-Prints rs text = ground (
    arith,
    str_eq_iff flags.format (codes "prom"),
    str_eq_iff flags.format (codes "json"),
    encoded_iff (world.encode rs) text,
  )

  encoded-refused :
      (m : Except Str) (code : ℕ) (text : Str)
      → encoded rt m ≡ refused code text
      → (code ≡ 1) × ((e : Str) × (m ≡ err e))
  unfolding encoded
  encoded-refused (ok s) code text h = cc
  encoded-refused (err e) code text h = (cc, (e, refl))

  pub write_results-Unprinted :
      (rs : List (Result Float64)) (code : ℕ) (text : Str)
      → write_results rt world flags.format rs ≡ refused code text
      → Unprinted rs code
  unfolding write_results
  write_results-Unprinted rs code text h = ground (
    arith,
    str_eq_iff flags.format (codes "prom"),
    str_eq_iff flags.format (codes "json"),
    encoded-refused (world.encode rs) code text,
  )

  push_results-Takes :
      (p : PushPayload Float64)
      → ((push_results world.trim_space flags.push_url world.push_token
            (world.marshal p)
            (world.answers flags.push_timeout)).1
          ≡ none)
        ↔ Takes p
  push_results-Takes p = elim (Except-cases (world.marshal p)) [
    | inr (e, failed) ↦ rw failed ((λ h. unfold push_results in cc), λ (body, k, d). cc)
    | inl (body, e) ↦
        let sent =
          push_results-none_iff world.trim_space flags.push_url world.push_token body
            (world.answers flags.push_timeout) in
        rw e (
          (λ h. (body, refl, sent.0 h)),
          λ (body', k, d).
              let same : body' ≡ body = cc in
              sent.1 (
                subst
                  (λ b.
                    Delivers world.trim_space flags.push_url world.push_token b
                      (world.answers flags.push_timeout) backoff 0)
                  same d),
        )
  ]

  -- Whether the push of an identified run succeeds.
  pushed_as-Stores :
      (rs : List (Result Float64)) (id : Str)
      → (went : List Request × Option Str) × (pushed_as rt world flags rs (ok id) ≡ some went)
        × ((went.1 ≡ none) ↔ Stores rs id)
  unfolding pushed_as
  pushed_as-Stores rs id =
      let source = source_of flags.push_source world.hostname in
      let (p, built, id_kept, source_kept, start_kept, ships) =
        build_payload-Ships floating id source world.now rs in
      let takes = push_results-Takes p in
      (
        push_results world.trim_space flags.push_url world.push_token (world.marshal p)
            (world.answers flags.push_timeout),
        rw built refl,
        (
          (λ h. (p, built, takes.0 h)),
          λ (p', built', taken). takes.1 (subst Takes (some-eq (sym built' ∙ built)) taken),
        ),
      )

  -- The push succeeds exactly where nothing is to be stored or the results are stored; and it
  -- never dereferences a nil pointer.
  pub push_stage-Stored :
      (rs : List (Result Float64))
      → (went : List Request × Option Str) × (push_stage rt world flags rs ≡ some went)
        × ((went.1 ≡ none) ↔ Stored rs)
  unfolding push_stage
  push_stage-Stored rs = elim (is_empty-cases flags.push_url) [
    | inl (e, none_given) ↦ rw none_given (([], none), refl, ((λ h. inl e), λ h. refl))
    | inr (given, some_given) ↦ elim (Except-cases (new_uuid_v4 world.random)) [
      | inr (e, k) ↦ (
        ([], some e),
        rw (some_given, k) (unfold pushed_as in refl),
        ((λ h. cc), unidentified e k given),
      )
      | inl (id, k) ↦
          let (went, pushed, same) = pushed_as-Stores rs id in
          (
            went,
            rw (some_given, k) pushed,
            ((λ h. inr (given, (id, k, same.0 h))), λ h. same.1 (identified id k given h)),
          )
    ]
  ]
    where
      identified :
          (id : Str)
          → new_uuid_v4 world.random ≡ ok id
          → flags.push_url ≢ []
          → Stored rs
          → Stores rs id
      identified id k given (inl e) = absurd (given e)
      identified id k given (inr (there, (id', k', stores))) =
          let same : id' ≡ id = cc in subst (Stores rs) same stores

      unidentified :
          (e : Str)
          → new_uuid_v4 world.random ≡ err e
          → flags.push_url ≢ []
          → Stored rs
          → some e ≡ none
      unidentified e k given (inl h) = absurd (given h)
      unidentified e k given (inr (there, (id', k', stores))) = cc
