-- ===== src/Upgrade.antt =====
-- scripts/compiler_upgrade_gate.py: the run of a compiler candidate in its own tree, and the verdict
-- on two candidates.
pub mod Benchmarks
pub mod Qualified
pub mod Verdict
use elisa_lsp.Base.{
  ℕ, Bool, true, false, not, ◌&&◌, ◌||◌, Option, none, some, List, [], ◌∷◌, ◌++◌, if◌then◌else◌,
}
use elisa_lsp.Base.Bytes.{◌>>=◌}
use elisa_lsp.Base.Int.{ℤ, pos, is_nat}
use elisa_lsp.Base.Text.{Text, codes, starts_with}
use elisa_lsp.Json.{Value, as_object}
use elisa_lsp.Markers.{failed_test_names, failure_diagnostic_lines}
use elisa_lsp.Platform.{
  Ran, completed, timeout_expired, os_error, Env, set_if, pop, stage1_gate, build_command,
  tests_command, or_empty, tail_of,
}
use elisa_lsp.Upgrade.Benchmarks.Summary.{Numbers, summarize_benchmark}
use Benchmarks.{Floats, Times, Problem, compare_benchmarks}

-- The environments of the build and of all that runs after it.
unfoldable pub candidate_environments : Env → Text → Env × Env
candidate_environments base backend_name =
    let test_env = pop stage1_gate base in
    if starts_with backend_name (codes "elisac-stage1")
    then (set_if stage1_gate (some (codes "1")) test_env, test_env)
    else (test_env, test_env)

unfoldable pub full_qualification_requested : Bool → Bool → Bool
full_qualification_requested skip_tests skip_benchmark = not skip_tests && not skip_benchmark

pub record RunRecord : Type 0 where
  pub command : List Text
  pub returncode : ℤ
  pub timed_out : Bool
  pub tail : Text
  pub failure_diagnostics : List Text
  pub failure_markers : List Text

-- A compiler under test: its tree's label, the compiler's file name, the path of its copy in the
-- tree, the resolved frontend, and the path of the benchmark's results in the tree.
pub record Candidate : Type 0 where
  pub label : Text
  pub backend_name : Text
  pub probe_backend : Text
  pub frontend : Text
  pub benchmark_path : Text

-- The parsed arguments that the runs read; timeouts in milliseconds.
pub record Options (floats : Floats) : Type 0 where
  pub build_timeout : ℕ
  pub test_timeout : ℕ
  pub benchmark_timeout : ℕ
  pub benchmark_sizes : Text
  pub samples : Text
  pub max_latency_regression : floats.Float
  pub skip_tests : Bool
  pub skip_benchmark : Bool

-- What the machine answers for a tree, by its label. `run` is `subprocess.run` with an environment
-- and a timeout; `built` is whether the executable and the manifest are there after the build;
-- `manifest` and `results` are the parsed manifest and the parsed results of the benchmark, `none`
-- where reading them raises; `lower` is `str.lower`.
pub record Machine (floats : Floats) : Type 0 where
  pub environ : Env
  pub run : Text → List Text → Env → ℕ → Ran
  pub built : Text → Bool
  pub manifest : Text → Option Value
  pub benchmark_written : Text → Bool
  pub results : Text → Option Value
  pub numbers : Numbers floats
  pub lower : Text → Text

-- The times of a tree's benchmark; nothing is an exception.
unfoldable pub summary : (floats : Floats) → Machine floats → Text → Option (Times floats)
unfolding summarize_benchmark
summary floats machine label =
    machine.results label >>= λ results. summarize_benchmark floats machine.numbers results

pub data Status : Type 0 where
  build_failed tests_failed benchmark_failed passed : Status

pub record CandidateRecord (floats : Floats) : Type 0 where
  pub status : Status
  pub build : RunRecord
  pub tests : Option RunRecord
  pub benchmark_run : Option RunRecord
  pub p95_ms : Option (Times floats)

abbrev pub benchmark_command : Text → Text → Text → List Text
benchmark_command sizes samples path =
    codes "python3"
    ∷ codes "test/bench.py"
    ∷ codes "--sizes"
    ∷ sizes
    ∷ codes "--samples"
    ∷ samples
    ∷ codes "--out"
    ∷ path
    ∷ []

-- The caller's environment with the candidate's compiler and frontend.
abbrev pub candidate_base : Env → Candidate → Env
candidate_base environ c = set_if (codes "PYTHONUNBUFFERED") (some (codes "1")) (
    set_if (codes "ELISA_COMPILER_ROOT") (some c.frontend)
      (set_if (codes "ELISAC") (some c.probe_backend) environ))

module _ (lower : Text → Text) where
  abbrev record_of : List Text → ℤ → Bool → Text → RunRecord
  record_of command returncode timed_out output = record {
    command = command;
    returncode = returncode;
    timed_out = timed_out;
    tail = tail_of 4000 output;
    failure_diagnostics = failure_diagnostic_lines lower output 40;
    failure_markers = failed_test_names output;
  }

  -- `none` is an exception: no output to write, or a command that cannot be started.
  unfoldable pub run_record : List Text → Ran → Option RunRecord
  run_record command (completed returncode none) = none
  run_record command (completed returncode (some output)) =
      some (record_of command returncode false output)
  run_record command (timeout_expired stdout stderr) =
      some (record_of command (pos 124) true (or_empty stdout ++ or_empty stderr))
  run_record command (os_error text) = none

module _ (floats : Floats) (machine : Machine floats) (options : Options floats) where
  pub stopped : Status → RunRecord → Option RunRecord → Option RunRecord → CandidateRecord floats
  stopped status build tests benchmark_run = record {
    status = status;
    build = build;
    tests = tests;
    benchmark_run = benchmark_run;
    p95_ms = none;
  }

  -- The benchmark, once the build and the tests are done.
  unfoldable pub benchmark_phase :
      Candidate → Env → RunRecord → Option RunRecord → Option (CandidateRecord floats)
  unfolding stopped summary
  benchmark_phase c test_env build tests =
      let command = benchmark_command options.benchmark_sizes options.samples c.benchmark_path in
      let measured = do
        benchmark ←
            run_record machine.lower command
              (machine.run c.label command test_env options.benchmark_timeout)
        if not (is_nat benchmark.returncode 0) || not (machine.benchmark_written c.label)
            then some (stopped benchmark_failed build tests (some benchmark))
            else (do
              times ← summary floats machine c.label
              some (record {
                status = passed;
                build = build;
                tests = tests;
                benchmark_run = some benchmark;
                p95_ms = some times;
              }))
      in if options.skip_benchmark then some (stopped passed build tests none) else measured

  unfoldable pub tests_phase : Candidate → Env → RunRecord → Option (CandidateRecord floats)
  unfolding stopped
  tests_phase c test_env build =
      let tested = do
        tests ←
            run_record machine.lower tests_command
              (machine.run c.label tests_command test_env options.test_timeout)
        if not (is_nat tests.returncode 0)
            then some (stopped tests_failed build (some tests) none)
            else benchmark_phase c test_env build (some tests)
      in if options.skip_tests then benchmark_phase c test_env build none else tested

  -- `none` is an exception, which ends the program.
  unfoldable pub candidate_run : Candidate → Option (CandidateRecord floats)
  unfolding stopped
  candidate_run c =
      let (build_env, test_env) =
        candidate_environments (candidate_base machine.environ c) c.backend_name in
      do
        build ←
            run_record machine.lower build_command
              (machine.run c.label build_command build_env options.build_timeout)
        let after = do
          value ← machine.manifest c.label
          manifest ← as_object value
          tests_phase c test_env build
        if not (is_nat build.returncode 0) || not (machine.built c.label)
            then some (stopped build_failed build none none)
            else after

  abbrev pub is_passed : Status → Bool
  is_passed passed = true
  is_passed _ = false

  abbrev pub is_empty : List (Problem floats) → Bool
  is_empty [] = true
  is_empty (p ∷ ps) = false

  unfoldable pub gate_passed : Candidate → Candidate → Option Bool
  gate_passed baseline candidate = do
    old ← candidate_run baseline
    new ← candidate_run candidate
    problems ← compare_benchmarks floats old.p95_ms new.p95_ms options.max_latency_regression
    some (
        full_qualification_requested options.skip_tests options.skip_benchmark
        && is_passed old.status
        && is_passed new.status
        && is_empty problems)

  -- The exit status; an exception that nothing catches ends with 1.
  unfoldable pub main : Candidate → Candidate → ℕ
  main baseline candidate = elim (gate_passed baseline candidate) [ some true ↦ 0 | _ ↦ 1 ]
