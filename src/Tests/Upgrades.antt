-- ===== src/Tests/Upgrades.antt =====
-- The upgrade gate on two small candidates, with times in whole milliseconds.
use elisa_lsp.Base.{
  ℕ, ◌+◌, ◌*◌, ltb, leb, Bool, true, false, Option, none, some, List, [], ◌∷◌, ◌≡◌, ◌≢◌, ◌↔◌, refl,
  if◌then◌else◌,
}
use elisa_lsp.Base.Int.{ℤ, pos, negsuc}
use elisa_lsp.Base.Text.{Text, codes, equal, starts_with, contains}
use elisa_lsp.Json.{
  Value, obj, end, Fields, field, arr, cons, nil, int, non_finite, get_or, to_list,
}
use elisa_lsp.Platform.{Env, completed}
use elisa_lsp.Base.Tables.{look_up}
use elisa_lsp.Upgrade.Benchmarks.{
  Floats, Times, regression, scenario_mismatch, compare_benchmarks, compare_scenario,
  compare_scenarios, minus,
}
use elisa_lsp.Upgrade.Benchmarks.Compared.{HasNoProblem, compare_benchmarks_iff}
use elisa_lsp.Upgrade.Benchmarks.Summary.{Numbers, iterated, summarize_benchmark}
use elisa_lsp.Upgrade.Benchmarks.Summary.Last.{CaseTimes, last_at, summarize_benchmark_exact}
use elisa_lsp.Upgrade.{
  summary, candidate_environments, Candidate, Options, Machine, main, gate_passed, candidate_run,
  tests_phase, benchmark_phase, run_record, full_qualification_requested,
}
use elisa_lsp.Upgrade.Verdict.{IsQualification, main-IsQualification}

abbrev whole : Floats
whole = record {
  Float = ℕ;
  is_finite = λ x. true;
  zero = 0;
  one = 1;
  add = λ x y. x + y;
  mul = λ x y. x * y;
  lt = ltb;
  le = leb;
}

abbrev old_times : Times whole
old_times = (codes "a", 10) ∷ (codes "b", 20) ∷ []

abbrev new_times : Times whole
new_times = (codes "b", 40) ∷ (codes "a", 20) ∷ []

abbrev slow_times : Times whole
slow_times = (codes "b", 40) ∷ (codes "a", 21) ∷ []

compare_benchmarks_iff_example :
    (compare_benchmarks whole (some old_times) (some new_times) 1 ≡ some [])
    ↔ HasNoProblem whole (some old_times) (some new_times) 1
compare_benchmarks_iff_example = compare_benchmarks_iff whole (some old_times) (some new_times) 1

slower :
    compare_benchmarks whole (some old_times) (some slow_times) 1
    ≡ some (regression (codes "a") 10 21 ∷ [])
unfolding compare_benchmarks minus compare_scenarios compare_scenario look_up contains equal
slower = refl

mismatch :
    compare_benchmarks whole (some ((codes "c", 1) ∷ old_times)) (some old_times) 1
    ≡ some (scenario_mismatch (codes "c" ∷ []) [] ∷ [])
unfolding compare_benchmarks minus contains equal elisa_lsp.Base.Sort.sort
mismatch = refl

abbrev everywhere : Env
everywhere name = some (codes "1")

abbrev options : Options whole
options = record {
  build_timeout = 600;
  test_timeout = 900;
  benchmark_timeout = 900;
  benchmark_sizes = codes "100";
  samples = codes "3";
  max_latency_regression = 1;
  skip_tests = false;
  skip_benchmark = false;
}

abbrev natural : ℤ → Option ℕ
natural (pos n) = some n
natural (negsuc n) = none

abbrev small : Numbers whole
small = record { of_int = natural; of_float = λ m e. 0; thousand = 1000; format = λ v. codes "100" }

abbrev payload : Value → Value
payload p95 = obj (
    field (codes "summary") (obj (field (codes "wall_s") (obj (field (codes "p95") p95 end)) end))
      end)

abbrev results_of : Fields → Value
results_of scenarios = obj (
    field (codes "cases")
      (arr (
        cons
          (obj (
            field (codes "functions") (int (pos 100))
              (field (codes "scenarios") (obj scenarios) end)))
          nil))
      end)

abbrev old_results : Value
old_results =
    results_of
      (field (codes "a") (payload (int (pos 10))) (field (codes "b") (payload (int (pos 20))) end))

abbrev new_results : Value
new_results = results_of (
    field (codes "b") (payload (int (pos 40)))
      (field (codes "c") (payload non_finite) (field (codes "a") (payload (int (pos 20))) end)))

old_summarized :
    summarize_benchmark whole small old_results
    ≡ some ((codes "100.a.p95_ms", 10000) ∷ (codes "100.b.p95_ms", 20000) ∷ [])
unfolding summarize_benchmark get_or equal to_list
old_summarized = refl

summarize_benchmark_exact_example :
    (fields : Fields) × (cases : List Value) × (all : Times whole) × (◌≡◌ {A = Value} old_results
      (obj fields))
    × (iterated (get_or fields (codes "cases") (arr nil)) ≡ some cases)
    × CaseTimes whole small cases all
    × ((key : Text)
        → look_up ((codes "100.a.p95_ms", 10000) ∷ (codes "100.b.p95_ms", 20000) ∷ []) key
          ≡ last_at all key)
summarize_benchmark_exact_example =
    summarize_benchmark_exact whole small old_results
      ((codes "100.a.p95_ms", 10000) ∷ (codes "100.b.p95_ms", 20000) ∷ []) old_summarized

abbrev machine : Machine whole
machine = record {
  environ = everywhere;
  run = λ label command env timeout. completed (pos 0) (some (codes "ok"));
  built = λ label. true;
  manifest = λ label. some (obj end);
  benchmark_written = λ label. true;
  results = λ label. some (if equal label (codes "baseline") then old_results else new_results);
  numbers = small;
  lower = λ t. t;
}

abbrev candidate : Text → Candidate
candidate label = record {
  label = label;
  backend_name = codes "elisac-stage1";
  probe_backend = codes "/t/elisac-stage0";
  frontend = codes "/f";
  benchmark_path = codes "/t/upgrade.json";
}

qualified :
    main whole machine options (candidate (codes "baseline")) (candidate (codes "candidate")) ≡ 0
unfolding main gate_passed candidate_run tests_phase benchmark_phase run_record
    candidate_environments full_qualification_requested compare_benchmarks minus compare_scenarios
    compare_scenario look_up contains equal starts_with summary to_list
qualified = refl

main-IsQualification_example :
    (main whole machine options (candidate (codes "baseline")) (candidate (codes "candidate")) ≡ 0)
    ↔ IsQualification whole machine options
        (candidate (codes "baseline"))
        (candidate (codes "candidate"))
main-IsQualification_example =
    main-IsQualification whole machine options (candidate (codes "baseline"))
      (candidate (codes "candidate"))
