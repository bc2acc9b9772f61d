-- ===== src/Upgrade/Verdict.antt =====
-- The exit status of scripts/compiler_upgrade_gate.py, and the environments that it gives to the
-- commands.
use elisa_lsp.Base.{
  true, false, ◌&&◌, Option, none, some, List, [], ◌∷◌, ◌≡◌, ◌↔◌, arith, Bool-cases, Option-cases,
  inl, inr, if◌then◌else◌,
}
use elisa_lsp.Base.Bytes.{bind-eq-some}
use elisa_lsp.Base.Text.{Text, codes, equal, starts_with}
use elisa_lsp.Platform.{Env, stage1_gate}
use elisa_lsp.Upgrade.Benchmarks.{Floats, Times, Problem, compare_benchmarks}
use elisa_lsp.Upgrade.Benchmarks.Compared.{HasNoProblem, compare_benchmarks_iff}
use elisa_lsp.Upgrade.Qualified.{Qualifies, candidate_run-Qualifies, Qualifies-candidate_run}
use elisa_lsp.Upgrade.{
  candidate_environments, full_qualification_requested, Candidate, Options, Machine,
  CandidateRecord, candidate_run, gate_passed, main, is_passed, passed, is_empty,
}

-- Whatever the caller's environment holds, no command after the build sees
-- ELISA_LSP_ALLOW_STAGE1_GATE, the build sees it, as 1, exactly for a backend whose name starts with
-- elisac-stage1, and both see every other variable as the base environment has it.
pub candidate_environments_exact :
    (base : Env) (backend_name : Text)
    → ((candidate_environments base backend_name).1 stage1_gate ≡ none)
      × ((candidate_environments base backend_name).0 stage1_gate
          ≡ (if starts_with backend_name (codes "elisac-stage1") then some (codes "1") else none))
      × ((name : Text)
          → equal stage1_gate name ≡ false
          → ((candidate_environments base backend_name).0 name ≡ base name)
            × ((candidate_environments base backend_name).1 name ≡ base name))
unfolding candidate_environments equal
candidate_environments_exact base backend_name =
    elim (Bool-cases (starts_with backend_name (codes "elisac-stage1"))) [
      | inl e ↦ (rw e, rw e, λ name h. (rw (e, h), rw (e, h)))
      | inr e ↦ (rw e, rw e, λ name h. (rw (e, h), rw (e, h)))
    ]

module _ (floats : Floats) (machine : Machine floats) (options : Options floats) where
  -- Nothing is skipped, both candidates qualify, and the second is not slower than allowed.
  pub record IsQualification (baseline candidate : Candidate) : Type 0 where
    pub tests_requested : options.skip_tests ≡ false
    pub benchmark_requested : options.skip_benchmark ≡ false
    pub old : Qualifies floats machine options baseline
    pub new : Qualifies floats machine options candidate
    pub no_problem :
        HasNoProblem floats (some old.times) (some new.times) options.max_latency_regression

  main_gate :
      (baseline candidate : Candidate)
      → main floats machine options baseline candidate ≡ 0
      → gate_passed floats machine options baseline candidate ≡ some true
  unfolding main
  main_gate baseline candidate h =
      elim (Option-cases (gate_passed floats machine options baseline candidate)) [
        | inl e ↦ cc (rw (main, e) at h)
        | inr (true, e) ↦ e
        | inr (false, e) ↦ cc (rw (main, e) at h)
      ]

  compared_at :
      (o n : Option (Times floats)) (ps : List (Problem floats)) {old new : Times floats}
      → compare_benchmarks floats o n options.max_latency_regression ≡ some ps
      → is_empty floats machine options ps ≡ true
      → o ≡ some old
      → n ≡ some new
      → compare_benchmarks floats (some old) (some new) options.max_latency_regression ≡ some []
  compared_at o n [] e quiet p q = rw (← p, ← q) e
  compared_at o n (x ∷ ps) e quiet p q = cc

  gate_passed_all :
      (baseline candidate : Candidate) (r r' : CandidateRecord floats)
      → options.skip_tests ≡ false
      → options.skip_benchmark ≡ false
      → candidate_run floats machine options baseline ≡ some r
      → candidate_run floats machine options candidate ≡ some r'
      → r.status ≡ passed
      → r'.status ≡ passed
      → compare_benchmarks floats r.p95_ms r'.p95_ms options.max_latency_regression ≡ some []
      → gate_passed floats machine options baseline candidate ≡ some true
  unfolding gate_passed full_qualification_requested
  gate_passed_all baseline candidate r r' s s' ran ran' p p' compared =
      let t : is_passed floats machine options r.status ≡ true = rw p in
      let t' : is_passed floats machine options r'.status ≡ true = rw p' in
      rw (ran, ran', compared) (ground arith)

  -- What the parts of the verdict say together.
  qualification :
      (baseline candidate : Candidate) (r r' : CandidateRecord floats) (ps : List (Problem floats))
      → candidate_run floats machine options baseline ≡ some r
      → candidate_run floats machine options candidate ≡ some r'
      → compare_benchmarks floats r.p95_ms r'.p95_ms options.max_latency_regression ≡ some ps
      → some (
          full_qualification_requested options.skip_tests options.skip_benchmark
          && is_passed floats machine options r.status
          && is_passed floats machine options r'.status
          && is_empty floats machine options ps)
        ≡ some true
      → IsQualification baseline candidate
  unfolding full_qualification_requested
  qualification baseline candidate r r' ps ran ran' compared h =
      let s : options.skip_tests ≡ false = ground arith in
      let s' : options.skip_benchmark ≡ false = ground arith in
      let p : is_passed floats machine options r.status ≡ true = ground arith in
      let p' : is_passed floats machine options r'.status ≡ true = ground arith in
      let quiet : is_empty floats machine options ps ≡ true = ground arith in
      let (q, timed) = candidate_run-Qualifies floats machine options baseline s s' ran p in
      let (q', timed') = candidate_run-Qualifies floats machine options candidate s s' ran' p' in
      record {
        tests_requested = s;
        benchmark_requested = s';
        old = q;
        new = q';
        no_problem =
            (compare_benchmarks_iff floats (some q.times) (some q'.times)
                options.max_latency_regression).0
              (compared_at r.p95_ms r'.p95_ms ps compared quiet timed timed');
      }

  gate_passed-IsQualification :
      (baseline candidate : Candidate)
      → gate_passed floats machine options baseline candidate ≡ some true
      → IsQualification baseline candidate
  unfolding gate_passed
  gate_passed-IsQualification baseline candidate h =
      let (r, ran, h₁) = bind-eq-some (candidate_run floats machine options baseline) _ h in
      let (r', ran', h₂) = bind-eq-some (candidate_run floats machine options candidate) _ h₁ in
      let (ps, compared, h₃) =
        bind-eq-some (compare_benchmarks floats r.p95_ms r'.p95_ms options.max_latency_regression) _
          h₂ in
      qualification baseline candidate r r' ps ran ran' compared h₃

  -- The program exits with 0 exactly when neither the tests nor the benchmark are skipped, both
  -- candidates qualify, and compare_benchmarks finds no problem in their times. A candidate
  -- qualifies when the build exits with 0 and leaves an executable and a manifest that is a JSON
  -- object, the test suite and the benchmark exit with 0 in the environment without the stage1 gate,
  -- and the benchmark's results are written and read.
  pub main-IsQualification :
      (baseline candidate : Candidate)
      → (main floats machine options baseline candidate ≡ 0) ↔ IsQualification baseline candidate
  unfolding main
  main-IsQualification baseline candidate = (
    λ h. gate_passed-IsQualification baseline candidate (main_gate baseline candidate h),
    λ q.
        let (r, ran, p, t) =
          Qualifies-candidate_run floats machine options baseline q.tests_requested
            q.benchmark_requested q.old in
        let (r', ran', p', t') =
          Qualifies-candidate_run floats machine options candidate q.tests_requested
            q.benchmark_requested q.new in
        let compared = (compare_benchmarks_iff floats _ _ _).1 q.no_problem in
        let gate =
          gate_passed_all baseline candidate r r' q.tests_requested q.benchmark_requested ran ran' p
            p' (rw (t, t') compared) in
        rw (main, gate),
  )
