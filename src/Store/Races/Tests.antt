-- ===== src/Store/Races/Tests.antt =====
-- Two requests for one run that overlap: each looks the run up before the other has inserted it.
use tunnel_ops.Base.{ℕ, str_eq, codes, [], ◌∷◌, false, some, none, ◌≡◌, refl}
use tunnel_ops.Samples.Batch.{run, empty, behind}
use tunnel_ops.Store.{
  committed, json, Reply, refusal, run_accepted, token_ok, valid_run, ingested, new_run,
}
use tunnel_ops.Store.Tables.{tables, tables-Documented}
use tunnel_ops.Store.Ledger.{Ledger, Posted, StandsFor}
use tunnel_ops.Store.Races.{Course, ended, served, LedgerCourse, post_between, Course-LedgerCourse}

abbrev request : Posted ℕ
request = (committed, some (codes "token"), json (some run))

abbrev created : Reply
created = record { status = 201; accepted = some (run_accepted (codes "a") 2 false) }

first : post_between tables (codes "token") request empty empty ≡ (created, behind)
unfolding post_between token_ok str_eq valid_run ingested new_run
first = refl

second : post_between tables (codes "token") request empty behind ≡ (refusal 500, behind)
unfolding post_between token_ok str_eq valid_run ingested new_run
second = refl

overlapping :
    Course tables (codes "token") (request ∷ request ∷ []) empty (created ∷ refusal 500 ∷ []) behind
overlapping = served empty (λ k i h. h) first (served empty (λ k i h. cc) second ended)

Course-LedgerCourse_example :
    (l' : Ledger) × LedgerCourse
      (codes "token")
      (request ∷ request ∷ [])
      (λ k. none)
      (created ∷ refusal 500 ∷ [])
      l'
    × StandsFor tables tables-Documented behind l'
Course-LedgerCourse_example =
    Course-LedgerCourse tables tables-Documented (codes "token") (request ∷ request ∷ []) empty
      behind (created ∷ refusal 500 ∷ []) (λ k. none) (λ k. refl) overlapping
