-- ===== src/Command/Tests.antt =====
-- `main` on a fleet of one node, which refuses the connection.
use tunnel_ops.Base.{
  ℕ, codes, str_eq, true, false, inl, List, [], ◌∷◌, some, none, ◌≡◌, refl, ◌↔◌, arith, ok, err,
}
use tunnel_ops.Samples.{nanos, target_of}
use tunnel_ops.Samples.Offline.{runtime, env}
use tunnel_ops.Samples.Sorting.{sort_by, sort_by-Perm, sort_by-IsOrdered, IsOrdered}
use tunnel_ops.Target.{Target, Result}
use tunnel_ops.Outcome.Expected.{expected}
use tunnel_ops.Tls.{probe_tls, validate_tls}
use tunnel_ops.Loading.Laws.{load_targets_iff}
use tunnel_ops.Outcome.{Outcome}
use tunnel_ops.Udp.{exchange_outcome, validate_udp, parse_udp_params, probe_udp}
use tunnel_ops.Udp.Exchange.{run}
use tunnel_ops.Prober.{validate, udp, tls, prober_for, run_prober}
use tunnel_ops.Prober.Laws.{built_in, probers_lem, prober_for_iff, probe-expected}
use tunnel_ops.RunAll.{
  worker, finished, state, launch, acquire, probe, send, release, count_down, close, Reachable,
  begins, goes_on,
}
use tunnel_ops.RunAll.Probes.{Probed}
use tunnel_ops.Push.Delivery.{response}
use tunnel_ops.Report.{write_prom}
use tunnel_ops.Command.Fleet.{main-without_tls}
use tunnel_ops.Command.{Flags, World, Ended, default_flags, main, name_lt}
use tunnel_ops.Command.Stages.{loading, reported}
use tunnel_ops.Command.Laws.{Permutes, EndsWith, Means, main-code_iff}
use tunnel_ops.Command.Reports.{OrderedBy, Orders, RunsAll, Shows, Reports, main-Reports}

abbrev edge : Target
edge = target_of "edge"

abbrev refused : Result ℕ
refused = expected nanos edge (probe_tls edge env.tls_env)

abbrev sent : Result ℕ
sent = record refused { timestamp = 9 }

abbrev flags : Flags
flags = record default_flags { format = codes "prom" }

abbrev world : World runtime
world = record {
  read_file = λ path. ok (codes "[]");
  unmarshal = λ text. ok (edge ∷ []);
  generated = λ i. ok i;
  now = 1;
  ran = λ ts timeout conc. sent ∷ [];
  sort_slice = sort_by (λ r. r.name);
  encode = λ rs. ok (codes "[]");
  hostname = ok (codes "prober");
  random = err (codes "no entropy");
  push_token = [];
  marshal = λ p. ok (codes "{}");
  trim_space = λ s. s;
  answers =
      λ timeout i. record { cancelled = none; answer = response 201 (codes "201 Created") [] };
}

probed : Probed runtime built_in flags.timeout edge sent
unfolding run_prober
probed =
    let resolved = (prober_for_iff runtime built_in edge tls probers_lem).1 refl in
    (
      env,
      9,
      refused,
      probe-expected runtime built_in edge env flags.timeout tls (probe_tls edge env.tls_env)
          resolved refl,
      refl,
    )

permutes : Permutes runtime world
permutes rs = sort_by-Perm (λ r. r.name) name_lt rs

orders : Orders runtime world flags
orders rs =
    ordered (sort_by (λ r. r.name) name_lt rs)
      (unfold name_lt in sort_by-IsOrdered (λ r. r.name) rs)
  where
    ordered :
        (rs : List (Result ℕ))
        → IsOrdered (λ r. r.name) rs
        → OrderedBy runtime world flags name_lt rs
    ordered [] h = tt
    ordered (r ∷ rs) h = (unfold name_lt in h.0, ordered rs h.1)

-- One goroutine probes the only target, and then the channel is closed.
one_run :
    (t : Target) (r : Result ℕ)
    → Probed runtime built_in flags.timeout t r
    → Reachable (Result ℕ) (Probed runtime built_in flags.timeout) (t ∷ []) 32 (
        state
          (Result ℕ)
          (Probed runtime built_in flags.timeout)
          (t ∷ [])
          32
          []
          (worker t (finished r) ∷ [])
          0
          (r ∷ [])
          0
          true)
one_run t r h =
    goes_on
      (goes_on
        (goes_on
          (goes_on
            (goes_on
              (goes_on (goes_on begins (launch t [] [] 0 [] 0))
                (acquire t [] [] [] 0 [] 1 false (omega arith)))
              (probe t r [] [] [] 1 [] 1 false h))
            (send t r [] [] [] 1 [] 1 false (omega arith)))
          (release t r [] [] [] 1 (r ∷ []) 1 false (omega arith)))
        (count_down t r [] [] [] 0 (r ∷ []) 1 false))
      (close (worker t (finished r) ∷ []) 0 (r ∷ []))

done : RunsAll runtime world flags (edge ∷ [])
done = (_, one_run edge sent probed, refl, refl)

loaded : loading runtime world flags ≡ ok (edge ∷ [])
unfolding validate validate_tls
loaded =
    let resolved = (prober_for_iff runtime built_in edge tls probers_lem).1 refl in
    (load_targets_iff runtime world.unmarshal world.generated built_in flags.targets_file
        (world.read_file flags.targets_file) (edge ∷ [])).1
      (codes "[]", refl, refl, (λ h. cc), ((tls, resolved, refl), tt))

main-Reports_example :
    (e : Ended) × (main runtime world flags ≡ some e)
    × Shows runtime world flags (edge ∷ []) e
    × Reports runtime world flags (edge ∷ []) (reported runtime world flags (edge ∷ []))
main-Reports_example = main-Reports runtime world flags (edge ∷ []) refl loaded done permutes orders

main-code_iff_example : EndsWith runtime world flags 1 ↔ Means runtime world flags 1
main-code_iff_example = main-code_iff runtime world flags permutes 1

-- A fleet of one node that is probed over UDP, and a store that refuses what it is sent.
abbrev dns : Target
dns = record (target_of "dns") { proto = codes "udp" }

abbrev unrouted : Outcome
unrouted =
    exchange_outcome false
      (record { name = codes "udp"; ok = false; duration = 1; err = codes "no route to host" } ∷ [])

abbrev sent_udp : Result ℕ
sent_udp = record (expected nanos dns unrouted) { timestamp = 9 }

abbrev store : Flags
store = record flags { push_url = codes "https://probes.example.com/v1/runs" }

abbrev world_udp : World runtime
world_udp = record world {
  unmarshal = λ text. ok (dns ∷ []);
  ran = λ ts timeout conc. sent_udp ∷ [];
  answers = λ timeout i. record {
    cancelled = none;
    answer = response 422 (codes "422 Unprocessable Content") [];
  };
}

resolved_udp : prober_for runtime built_in dns ≡ ok udp
resolved_udp = (prober_for_iff runtime built_in dns udp probers_lem).1 refl

sent_udp-Probed : Probed runtime built_in store.timeout dns sent_udp
unfolding run_prober probe_udp parse_udp_params run
sent_udp-Probed = (
  env,
  9,
  expected nanos dns unrouted,
  probe-expected runtime built_in dns env store.timeout udp unrouted resolved_udp refl,
  refl,
)

done_udp : RunsAll runtime world_udp store (dns ∷ [])
done_udp = (_, one_run dns sent_udp sent_udp-Probed, refl, refl)

loaded_udp : loading runtime world_udp store ≡ ok (dns ∷ [])
unfolding validate validate_udp parse_udp_params
loaded_udp =
    (load_targets_iff runtime world_udp.unmarshal world_udp.generated built_in store.targets_file
        (world_udp.read_file store.targets_file) (dns ∷ [])).1
      (codes "[]", refl, refl, (λ h. cc), ((udp, resolved_udp, refl), tt))

main-without_tls_example : EndsWith runtime world_udp store 3
unfolding str_eq
main-without_tls_example =
    main-without_tls runtime world_udp store (dns ∷ []) refl loaded_udp done_udp permutes
      (write_prom nanos (reported runtime world_udp store (dns ∷ [])), inl (refl, refl)) refl
      (λ h. cc) (λ p body bare marshalled. (omega arith, omega arith))
