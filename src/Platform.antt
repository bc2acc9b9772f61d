-- ===== src/Platform.antt =====
-- scripts/platform_validation.py: the run of the release build, the freshness check and the test
-- suite on a host, and the label that its report may carry.
pub mod Label
pub mod Toolchain
pub mod Identity
pub mod Named
pub mod Arguments
use elisa_lsp.Base.{
  ℕ, ◌-◌, Bool, true, false, not, ◌&&◌, ◌||◌, Option, none, some, List, [], ◌∷◌, ◌++◌, length, drop,
  if◌then◌else◌,
}
use elisa_lsp.Base.Int.{ℤ, pos, is_nat}
use elisa_lsp.Base.Text.{Text, codes, equal, contains}
use elisa_lsp.Json.{Value, null, Fields, get, is_text, as_object}
use elisa_lsp.Markers.{failure_markers}

abbrev pub supported_systems : List Text
supported_systems = codes "Darwin" ∷ codes "Linux" ∷ []

abbrev pub output_tail_chars : ℕ
output_tail_chars = 4000

-- How `subprocess.run` ends: the output is decoded text, `none` where the field is `None`.
pub data Ran : Type 0 where
  completed : ℤ → Option Text → Ran
  timeout_expired : Option Text → Option Text → Ran
  os_error : Text → Ran

pub record CommandRecord : Type 0 where
  pub command : List Text
  pub returncode : ℤ
  pub timed_out : Bool
  pub milliseconds : ℕ
  pub output_tail : Text
  pub failure_markers : List Text

-- `stdout or ""`
abbrev pub or_empty : Option Text → Text
or_empty none = []
or_empty (some t) = t

-- `output[-n:]`
abbrev pub tail_of : ℕ → Text → Text
tail_of n output = drop (length output - n) output

record_of : List Text → ℕ → ℤ → Bool → Text → CommandRecord
record_of command ms returncode timed_out output = record {
  command = command;
  returncode = returncode;
  timed_out = timed_out;
  milliseconds = ms;
  output_tail = tail_of output_tail_chars output;
  failure_markers = failure_markers output;
}

unfoldable pub command_record : List Text → ℕ → Ran → CommandRecord
unfolding record_of
command_record command ms (completed rc stdout) = record_of command ms rc false (or_empty stdout)
command_record command ms (timeout_expired stdout stderr) =
    record_of command ms (pos 124) true (or_empty stdout ++ or_empty stderr)
command_record command ms (os_error text) = record_of command ms (pos 127) false text

pub data Status : Type 0 where
  unsupported_platform incomplete failed validated : Status

unfoldable pub platform_gate_status : Text → Bool → Bool → Bool → Bool → Bool → Status
platform_gate_status system build_requested build_passed tests_requested tests_passed
      freshness_passed =
    if not (contains supported_systems system)
    then unsupported_platform
    else if not build_requested || not tests_requested
    then if freshness_passed then incomplete else failed
    else if not build_passed || not tests_passed || not freshness_passed
    then failed
    else validated

pub data Problem : Type 0 where
  wrong_host build_failed manifest_unreadable manifest_not_object freshness_failed : Problem
  tests_failed wrong_target outside_candidates : Problem

-- `none` is a file that cannot be read or is no JSON.
unfoldable pub read_manifest : Option Value → Option Fields × Option Problem
read_manifest none = (none, some manifest_unreadable)
read_manifest (some v) = elim (as_object v) [
  | none ↦ (none, some manifest_not_object)
  | some fields ↦ (some fields, none)
]

abbrev pub Env : Type 0
Env = Text → Option Text

-- `env[key] = value` where a value is given, and `env.pop(key, None)`
abbrev pub set_if : Text → Option Text → Env → Env
set_if key none env name = env name
set_if key (some value) env name = if equal key name then some value else env name

abbrev pub pop : Text → Env → Env
pop key env name = if equal key name then none else env name

abbrev pub stage1_gate : Text
stage1_gate = codes "ELISA_LSP_ALLOW_STAGE1_GATE"

-- What the host answers. `run` is `subprocess.run` in the repository root with the environment and
-- the timeout in milliseconds, `elapsed` the measured time, and `manifest` the file after the build.
pub record Host : Type 0 where
  pub system : Text
  pub machine : Text
  pub environ : Env
  pub run : List Text → Env → ℕ → Ran
  pub elapsed : List Text → ℕ
  pub manifest : Option Value

-- The parsed arguments, with the paths that they resolve to.
pub record Args : Type 0 where
  pub root : Text
  pub binary : Text
  pub manifest_path : Text
  pub compiler : Option Text
  pub frontend : Option Text
  pub build : Bool
  pub tests : Bool
  pub require_platform : Option Text
  pub build_timeout : ℕ
  pub test_timeout : ℕ

unfoldable pub environment : Host → Args → Env
environment host args =
    set_if (codes "ELISA_COMPILER_ROOT") args.frontend
      (set_if (codes "ELISAC") args.compiler (pop stage1_gate host.environ))

abbrev pub build_command : List Text
build_command = codes "bash" ∷ codes "build.sh" ∷ codes "--release" ∷ []

abbrev pub tests_command : List Text
tests_command = codes "bash" ∷ codes "test/run_all.sh" ∷ []

abbrev pub freshness_command : Args → List Text
freshness_command args =
    codes "python3"
    ∷ codes "scripts/check_build_freshness.py"
    ∷ codes "--root"
    ∷ args.root
    ∷ codes "--binary"
    ∷ args.binary
    ∷ codes "--manifest"
    ∷ args.manifest_path
    ∷ []

pub record Report : Type 0 where
  pub build_record : Option CommandRecord
  pub freshness_record : CommandRecord
  pub tests_record : Option CommandRecord
  pub status : Status
  pub errors : List Problem

run_record : Host → List Text → Env → ℕ → CommandRecord
run_record host command env timeout =
    command_record command (host.elapsed command) (host.run command env timeout)

passed : CommandRecord → Bool
passed r = is_nat r.returncode 0 && not r.timed_out

-- A phase that is not requested counts as passed.
phase_passed : Option CommandRecord → Bool
unfolding passed
phase_passed none = true
phase_passed (some r) = passed r

abbrev when : Bool → Problem → List Problem
when b p = if b then p ∷ [] else []

abbrev pub reported : Option Problem → List Problem
reported none = []
reported (some p) = p ∷ []

-- `args.require_platform and system != args.require_platform`
wrong_platform : Host → Args → Bool
wrong_platform host args = elim args.require_platform [
  | none ↦ false
  | some p ↦ not (equal host.system p)
]

-- `manifest.get("os_arch") not in (None, expected_os_arch)`
other_target : Text → Value → Bool
other_target expected null = false
other_target expected v = not (is_text v expected)

wrong_manifest : Host → Option Fields → Bool
unfolding other_target
wrong_manifest host none = false
wrong_manifest host (some fields) =
    other_target (host.system ++ (codes "/" ++ host.machine)) (get fields (codes "os_arch"))

is_unsupported : Status → Bool
is_unsupported unsupported_platform = true
is_unsupported _ = false

unfoldable pub report : Host → Args → Report
unfolding run_record phase_passed wrong_platform wrong_manifest is_unsupported
report host args =
    let env = environment host args in
    let build : Option CommandRecord =
      if args.build then some (run_record host build_command env args.build_timeout) else none in
    let (manifest, manifest_error) = read_manifest host.manifest in
    let freshness = run_record host (freshness_command args) env 60000 in
    let tests : Option CommandRecord =
      if args.tests then some (run_record host tests_command env args.test_timeout) else none in
    let status =
      platform_gate_status host.system args.build (phase_passed build) args.tests
        (phase_passed tests) (passed freshness) in
    let wrong_host_or_target = wrong_platform host args || wrong_manifest host manifest in
    record {
      build_record = build;
      freshness_record = freshness;
      tests_record = tests;
      status = if wrong_host_or_target then failed else status;
      errors =
          when (wrong_platform host args) wrong_host
          ++ (when (not (phase_passed build)) build_failed
              ++ (reported manifest_error
                  ++ (when (not (passed freshness)) freshness_failed
                      ++ (when (not (phase_passed tests)) tests_failed
                          ++ (when (wrong_manifest host manifest) wrong_target
                              ++ when (is_unsupported status) outside_candidates)))));
    }

-- The exit status of the program.
unfoldable pub main : Host → Args → ℕ
unfolding report
main host args = elim (report host args).status [ validated ↦ 0 | _ ↦ 1 ]
