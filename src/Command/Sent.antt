-- ===== src/Command/Sent.antt =====
-- What `main` of cmd/nodecheck/main.go has sent when it ends with exit code 0.
use mathlib.Core.Path.{subst}
use tunnel_ops.Base.{
  All, ◌∷◌, [], Option, Except-cases, refl, Str, false, List, [], none, some, some-eq, ok,
  is_empty-cases, ◌≡◌, ◌≢◌, sym, ap, ◌∙◌, inl, inr, arith,
}
use tunnel_ops.Target.{Target, Result}
use tunnel_ops.Prober.{Runtime}
use tunnel_ops.Push.{PushPayload, new_uuid_v4, build_payload}
use tunnel_ops.Push.Laws.{build_payload-Ships}
use tunnel_ops.Push.Delivery.{Request, request_of, push_results}
use tunnel_ops.Push.Delivery.Requests.{push_results-Repeats}
use tunnel_ops.Command.{Flags, World, Ended, any_down, source_of, pushed_as, push_stage, main}
use tunnel_ops.Command.Stages.{loading, reported, push_stage-Stored, write_results-Unprinted}
use tunnel_ops.Command.Course.{
  Course, shows_version, not_loaded, not_written, not_pushed, concluded, main-Course,
}
use tunnel_ops.Command.Laws.{Healthy, any_down_iff}

module _ (rt : Runtime) (world : World rt) (flags : Flags) where
  open rt use {floating}
  open floating use {Float64}

  -- What a push that succeeded has sent, of a list of results.
  abbrev pub Sent : List (Result Float64) → List Request → Type 0
  Sent rs requests =
      (id : Str) × (p : PushPayload Float64) × (body : Str) × (new_uuid_v4 world.random ≡ ok id)
      × (build_payload floating id (source_of flags.push_source world.hostname) world.now rs
          ≡ some p)
      × (world.marshal p ≡ ok body)
      × (push_results world.trim_space flags.push_url world.push_token (ok body)
            (world.answers flags.push_timeout)
          ≡ (requests, none))

  -- A request that has the payload of a list of results as its body.
  abbrev pub Carries : List (Result Float64) → Request → Type 0
  Carries rs q =
      (id : Str) × (p : PushPayload Float64) × (body : Str) × (new_uuid_v4 world.random ≡ ok id)
      × (build_payload floating id (source_of flags.push_source world.hostname) world.now rs
          ≡ some p)
      × (world.marshal p ≡ ok body)
      × (q ≡ request_of flags.push_url world.push_token body)

  same-Carries :
      (rs : List (Result Float64)) (q : Request) (log : List Request)
      → Carries rs q
      → All (λ p. p ≡ q) log
      → All (Carries rs) log
  same-Carries rs q [] h same = tt
  same-Carries rs q (p ∷ log) h same =
      (subst (Carries rs) (sym same.0) h, same-Carries rs q log h same.1)

  marshalled-Carries :
      (rs : List (Result Float64)) (id : Str) (p : PushPayload Float64)
      (went : List Request × Option Str)
      → new_uuid_v4 world.random ≡ ok id
      → build_payload floating id (source_of flags.push_source world.hostname) world.now rs ≡ some p
      → push_results world.trim_space flags.push_url world.push_token
          (world.marshal p)
          (world.answers flags.push_timeout)
        ≡ went
      → All (Carries rs) went.0
  marshalled-Carries rs id p went made built e = elim (Except-cases (world.marshal p)) [
    | inr (m, failed) ↦
        subst (λ w. All (Carries rs) w.0) (rw failed at e) (unfold push_results in tt)
    | inl (body, m) ↦
        let repeats =
          push_results-Repeats world.trim_space flags.push_url world.push_token body
            (world.answers flags.push_timeout) in
        subst (λ w. All (Carries rs) w.0) (rw m at e)
          (same-Carries rs (request_of flags.push_url world.push_token body) _
            (id, p, body, made, built, m, refl) repeats.0)
  ]

  -- Whatever a push sends, and however it ends, has the results' payload.
  pub push_stage-Carries :
      (rs : List (Result Float64)) (went : List Request × Option Str)
      → push_stage rt world flags rs ≡ some went
      → All (Carries rs) went.0
  unfolding push_stage pushed_as
  push_stage-Carries rs went h = elim (is_empty-cases flags.push_url) [
    | inl (e, bare) ↦ subst (λ w. All (Carries rs) w.0) (some-eq (rw bare at h)) tt
    | inr (there, filled) ↦ elim (Except-cases (new_uuid_v4 world.random)) [
      | inr (m, failed) ↦ subst (λ w. All (Carries rs) w.0) (some-eq (rw (filled, failed) at h)) tt
      | inl (id, made) ↦
          let (p, built, id_kept, source_kept, start_kept, ships) =
            build_payload-Ships floating id (source_of flags.push_source world.hostname) world.now
              rs in
          marshalled-Carries rs id p went made built (some-eq (rw (filled, made, built) at h))
    ]
  ]

  push_stage-Sent :
      (rs : List (Result Float64)) (requests : List Request)
      → flags.push_url ≢ []
      → push_stage rt world flags rs ≡ some (requests, none)
      → Sent rs requests
  unfolding push_stage pushed_as
  push_stage-Sent rs requests given pushed =
      let (went, same, stored) = push_stage-Stored rt world flags rs in
      let none_left : went.1 ≡ none = ap (λ w. w.1) (some-eq (sym same ∙ pushed)) in
      elim (stored.0 none_left) [
        | inl e ↦ absurd (given e)
        | inr (there, (id, made, (p, built, (body, marshalled, delivers)))) ↦
            elim (is_empty-cases flags.push_url) [
              | inl (e, bare) ↦ absurd (given e)
              | inr (there', filled) ↦ (
                id,
                p,
                body,
                made,
                built,
                marshalled,
                some-eq (rw (filled, made, built, marshalled) at pushed),
              )
            ]
      ]

  -- A process that ends with exit code 0 and has a URL to push to.
  Course-Sent :
      {e : Ended} (ts : List Target)
      → flags.show_version ≡ false
      → flags.push_url ≢ []
      → loading rt world flags ≡ ok ts
      → Course rt world flags e
      → e.code ≡ 0
      → (any_down (reported rt world flags ts) ≡ false)
        × Sent (reported rt world flags ts) e.requests
  Course-Sent ts runs given loaded (shows_version shows) ends = absurd (ground (arith, runs, shows))
  Course-Sent ts runs given loaded (not_loaded e runs' k) ends = absurd (omega (arith, ends))
  Course-Sent ts runs given loaded (not_written us code e runs' k l) ends =
      elim (write_results-Unprinted rt world flags (reported rt world flags us) code e l) [
        | inl u ↦ absurd (omega (arith, u.0, ends))
        | inr u ↦ absurd (omega (arith, u.0, ends))
      ]
  Course-Sent ts runs given loaded (not_pushed us stdout e requests runs' k l m) ends =
      absurd (omega (arith, ends))
  Course-Sent ts runs given loaded (concluded us stdout requests runs' k l m) ends =
      let same : us ≡ ts = cc in
      subst
        (λ x.
          (any_down (reported rt world flags x) ≡ false)
          × Sent (reported rt world flags x) requests)
        same (ground (arith, ends), push_stage-Sent (reported rt world flags us) requests given m)

  -- A process that ends with exit code 0, and has a URL to push to, found every reported result
  -- healthy and has sent them.
  pub main-Sent :
      (ts : List Target) (e : Ended)
      → flags.show_version ≡ false
      → flags.push_url ≢ []
      → loading rt world flags ≡ ok ts
      → main rt world flags ≡ some e
      → e.code ≡ 0
      → Healthy (reported rt world flags ts) × Sent (reported rt world flags ts) e.requests
  main-Sent ts e runs given loaded ends zero_code =
      let (e', ends', course) = main-Course rt world flags in
      let same : e' ≡ e = some-eq (sym ends' ∙ ends) in
      let (up, sent) =
        Course-Sent ts runs given loaded (subst (Course rt world flags) same course) zero_code in
      ((any_down_iff (reported rt world flags ts)).0 up, sent)
