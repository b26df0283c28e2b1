-- ===== src/Command.antt =====
-- cmd/nodecheck/main.go: `main`. The flags are a record; what the process is given and what it is
-- answered are another. It ends with an exit code, the two streams, and the requests it sent.
pub mod Course
pub mod Stages
pub mod Fleet
pub mod Laws
pub mod Reports
pub mod Sent
mod Tests
use tunnel_ops.Base.{
  ℕ, ◌*◌, Str, codes, str_eq, str_lt, is_empty, Bool, true, false, List, [], ◌∷◌, ◌++◌, Option,
  none, some, if◌then◌else◌, Except, ok, err,
}
use tunnel_ops.Target.{Target, Result}
use tunnel_ops.Outcome.{◌>>=◌}
use tunnel_ops.WireGuard.{Setting}
use tunnel_ops.WireGuard.Primitives.{Crypto}
use tunnel_ops.Prober.{Runtime, probers}
use tunnel_ops.Loading.{load_targets}
use tunnel_ops.Report.{write_prom, newline}
use tunnel_ops.Push.{PushPayload, new_uuid_v4, build_payload}
use tunnel_ops.Push.Delivery.{Request, Round, push_results, second}

pub record Flags : Type 0 where
  pub targets_file : Str
  pub timeout : ℕ
  pub concurrency : ℕ
  pub format : Str
  pub show_version : Bool
  pub push_url : Str
  pub push_timeout : ℕ
  pub push_source : Str

-- The flags of a command line that sets none.
abbrev pub default_flags : Flags
default_flags = record {
  targets_file = codes "targets.json";
  timeout = 5 * second;
  concurrency = 32;
  format = codes "json";
  show_version = false;
  push_url = [];
  push_timeout = 10 * second;
  push_source = [];
}

abbrev pub version : Str
version = codes "dev"

pub record Ended : Type 0 where
  pub code : ℕ
  pub stdout : Str
  pub stderr : Str
  pub requests : List Request

abbrev pub ended : ℕ → Str → Str → List Request → Ended
ended code stdout stderr requests = record {
  code = code;
  stdout = stdout;
  stderr = stderr;
  requests = requests;
}

-- `fmt.Fprintln` of a label and an error.
abbrev pub line : Str → Str → Str
line label e = label ++ codes " " ++ e ++ newline ∷ []

-- What the `switch` on the format writes to stdout, or the exit code and what goes to stderr.
pub data Written : Type 0 where
  written : (stdout : Str) → Written
  refused : (code : ℕ) (stderr : Str) → Written

-- `results[i].Name < results[j].Name`
unfoldable pub name_lt : {Float64 : Type 0} → Result Float64 → Result Float64 → Bool
name_lt r r' = str_lt r.name r'.name

-- Whether the loop at the end of `main` comes to an `os.Exit(1)`.
unfoldable pub any_down : {Float64 : Type 0} → List (Result Float64) → Bool
any_down [] = false
any_down (r ∷ rs) = if r.ok then any_down rs else true

-- `if err != nil || host == "" { host = "unknown" }`
abbrev pub host_name : Except Str → Str
host_name (err e) = codes "unknown"
host_name (ok host) = if is_empty host then codes "unknown" else host

-- The label of the run: the flag, or else one that the host's name makes.
unfoldable pub source_of : Str → Except Str → Str
source_of push_source hostname =
    if is_empty push_source then codes "nodecheck@" ++ host_name hostname else push_source

module _ (rt : Runtime) where
  open rt use {floating, setting}
  open floating use {Float64}

  -- What `main` calls and reads. `ran` is what `runAll` returns for the targets, the timeout and the
  -- concurrency; `sort_slice` is `sort.Slice` with its comparison; `encode` and `marshal` are those
  -- of encoding/json; `answers` has the context of the push, given its timeout.
  pub record World : Type 0 where
    pub read_file : Str → Except Str
    pub unmarshal : Str → Except (List Target)
    pub generated : ℕ → Except (Crypto.PrivateKey (Setting.crypto setting))
    pub now : ℕ
    pub ran : List Target → ℕ → ℕ → List (Result Float64)
    pub sort_slice :
        (Result Float64 → Result Float64 → Bool) → List (Result Float64) → List (Result Float64)
    pub encode : List (Result Float64) → Except Str
    pub hostname : Except Str
    pub random : Except Str
    pub push_token : Str
    pub marshal : PushPayload Float64 → Except Str
    pub trim_space : Str → Str
    pub answers : ℕ → ℕ → Round

  encoded : Except Str → Written
  encoded (ok text) = written text
  encoded (err e) = refused 1 (line (codes "output error:") e)

  -- The `switch` on the format.
  unfoldable pub write_results : World → Str → List (Result Float64) → Written
  unfolding encoded
  write_results world format rs =
      if str_eq format (codes "prom")
      then written (write_prom floating rs)
      else if str_eq format (codes "json")
      then encoded (world.encode rs)
      else refused 2 (codes "unknown format: " ++ format ++ newline ∷ [])

  pushed_as :
      World → Flags → List (Result Float64) → Except Str → Option (List Request × Option Str)
  pushed_as world flags rs (err e) = some ([], some e)
  pushed_as world flags rs (ok run_id) = do
    payload ←
        build_payload floating run_id (source_of flags.push_source world.hostname) world.now rs
    some (
        push_results world.trim_space flags.push_url world.push_token (world.marshal payload)
          (world.answers flags.push_timeout))

  -- The `if *pushURL != ""` statement: the requests, and the error that leads to exit code 3.
  unfoldable pub push_stage :
      World → Flags → List (Result Float64) → Option (List Request × Option Str)
  unfolding pushed_as
  push_stage world flags rs =
      if is_empty flags.push_url
      then some ([], none)
      else pushed_as world flags rs (new_uuid_v4 world.random)

  -- The exits behind the push.
  exits : Str → List (Result Float64) → List Request × Option Str → Ended
  exits stdout rs (requests, some e) = ended 3 stdout (line (codes "push error:") e) requests
  exits stdout rs (requests, none) = ended (if any_down rs then 1 else 0) stdout [] requests

  after_writing : World → Flags → List (Result Float64) → Written → Option Ended
  unfolding push_stage exits
  after_writing world flags rs (refused code stderr) = some (ended code [] stderr [])
  after_writing world flags rs (written stdout) = do
    went ← push_stage world flags rs
    some (exits stdout rs went)

  after_loading : World → Flags → Except (List Target) → Option Ended
  unfolding after_writing write_results
  after_loading world flags (err e) = some (ended 1 [] (line (codes "error:") e) [])
  after_loading world flags (ok targets) =
      let results = world.sort_slice name_lt (world.ran targets flags.timeout flags.concurrency) in
      after_writing world flags results (write_results world flags.format results)

  -- `main` behind the `init` functions; `none` is a panic.
  unfoldable pub main : World → Flags → Option Ended
  unfolding after_loading
  main world flags = do
    ps ← probers
    if flags.show_version
        then some (ended 0 (line (codes "nodecheck") version) [] [])
        else after_loading world flags (
            load_targets rt world.unmarshal world.generated ps flags.targets_file
              (world.read_file flags.targets_file))
