-- ===== src/Command/Course.antt =====
-- The ways in which `main` of cmd/nodecheck/main.go can end.
use tunnel_ops.Base.{
  ℕ, Str, codes, true, false, List, [], Option, none, some, if◌then◌else◌, ◌≡◌, refl, inl, inr,
  Except, ok, err, Bool-cases,
}
use tunnel_ops.Target.{Target}
use tunnel_ops.Prober.{Runtime}
use tunnel_ops.Prober.Laws.{probers_lem}
use tunnel_ops.Push.Delivery.{Request}
use tunnel_ops.Command.{
  Flags, World, Ended, ended, line, version, any_down, Written, written, refused, write_results,
  push_stage, exits, after_writing, after_loading, main,
}
use tunnel_ops.Command.Stages.{loading, reported, push_stage-Stored}

module _ (rt : Runtime) (world : World rt) (flags : Flags) where
  open rt use {floating}
  open floating use {Float64}

  -- One constructor for each place where `main` ends.
  pub data Course : Ended → Type 0 where
    shows_version :
        flags.show_version ≡ true → Course (ended 0 (line (codes "nodecheck") version) [] [])
    not_loaded :
        (e : Str)
        → flags.show_version ≡ false
        → loading rt world flags ≡ err e
        → Course (ended 1 [] (line (codes "error:") e) [])
    not_written :
        (ts : List Target) (code : ℕ) (e : Str)
        → flags.show_version ≡ false
        → loading rt world flags ≡ ok ts
        → write_results rt world flags.format (reported rt world flags ts) ≡ refused code e
        → Course (ended code [] e [])
    not_pushed :
        (ts : List Target) (stdout e : Str) (requests : List Request)
        → flags.show_version ≡ false
        → loading rt world flags ≡ ok ts
        → write_results rt world flags.format (reported rt world flags ts) ≡ written stdout
        → push_stage rt world flags (reported rt world flags ts) ≡ some (requests, some e)
        → Course (ended 3 stdout (line (codes "push error:") e) requests)
    concluded :
        (ts : List Target) (stdout : Str) (requests : List Request)
        → flags.show_version ≡ false
        → loading rt world flags ≡ ok ts
        → write_results rt world flags.format (reported rt world flags ts) ≡ written stdout
        → push_stage rt world flags (reported rt world flags ts) ≡ some (requests, none)
        → Course (ended (if any_down (reported rt world flags ts) then 1 else 0) stdout [] requests)

  -- Behind the output, `main` ends by one of the last two ways.
  pushed-Course :
      (ts : List Target) (stdout : Str)
      → flags.show_version ≡ false
      → loading rt world flags ≡ ok ts
      → write_results rt world flags.format (reported rt world flags ts) ≡ written stdout
      → (e : Ended) × (after_writing rt world flags (reported rt world flags ts) (written stdout)
          ≡ some e)
        × Course e
  unfolding after_writing exits
  pushed-Course ts stdout runs loaded wrote =
      let (went, pushed, stored) = push_stage-Stored rt world flags (reported rt world flags ts) in
      rw pushed (finish went pushed)
    where
      finish :
          (went : List Request × Option Str)
          → push_stage rt world flags (reported rt world flags ts) ≡ some went
          → (e : Ended) × (some (exits rt stdout (reported rt world flags ts) went) ≡ some e)
            × Course e
      finish (requests, none) k = (_, refl, concluded ts stdout requests runs loaded wrote k)
      finish (requests, some e) k = (_, refl, not_pushed ts stdout e requests runs loaded wrote k)

  written-Course :
      (ts : List Target)
      → flags.show_version ≡ false
      → loading rt world flags ≡ ok ts
      → (w : Written) → write_results rt world flags.format (reported rt world flags ts) ≡ w
      → (e : Ended) × (after_writing rt world flags (reported rt world flags ts) w ≡ some e)
        × Course e
  written-Course ts runs loaded (written stdout) k = pushed-Course ts stdout runs loaded k
  written-Course ts runs loaded (refused code e) k =
      (ended code [] e [], unfold after_writing in refl, not_written ts code e runs loaded k)

  loaded-Course :
      (m : Except (List Target))
      → flags.show_version ≡ false
      → loading rt world flags ≡ m
      → (e : Ended) × (after_loading rt world flags m ≡ some e) × Course e
  unfolding after_loading
  loaded-Course (err e) runs k =
      (ended 1 [] (line (codes "error:") e) [], refl, not_loaded e runs k)
  loaded-Course (ok ts) runs k = written-Course ts runs k _ refl

  -- `main` never panics, and ends by one of these ways.
  pub main-Course : (e : Ended) × (main rt world flags ≡ some e) × Course e
  unfolding main
  main-Course = elim (Bool-cases flags.show_version) [
    | inl shows ↦ (
      ended 0 (line (codes "nodecheck") version) [] [],
      simp (probers_lem, shows) refl,
      shows_version shows,
    )
    | inr runs ↦
        let (e, ended_so, course) = loaded-Course (loading rt world flags) runs refl in
        (e, simp (probers_lem, runs) ended_so, course)
  ]
